-- ===== src/Wire/Core.antt =====
-- src/session.rs: `CoreData`, what a session encrypts, and its bytes.
use chamomile.Prelude.{
  ℕ, Bool, [], ◌∷◌, ◌++◌, ◌==◌, ltb, length, take, drop, byte_at, if◌then◌else◌,
}
use chamomile.Prelude.Bytes.{Bytes, to_le_bytes, from_le_bytes}
use chamomile.Prelude.Result.{Result, ok, err, reject, ◌>>=◌, ◌>>◌}
use chamomile.Types.Message.{
  DeliveryType, data_delivery, stable_connect_delivery, stable_result_delivery,
}

pub data CoreData : Type 0 where
  ping pong : CoreData
  payload : ℕ → Bytes → CoreData
  delivery : DeliveryType → ℕ → Bytes → CoreData
  stable_connect : ℕ → Bytes → CoreData
  stable_result : ℕ → Bool → Bytes → CoreData
  result_connect : ℕ → Bytes → CoreData
  unstable : CoreData

unfoldable pub delivery_to_byte : DeliveryType → ℕ
delivery_to_byte data_delivery = 0
delivery_to_byte stable_connect_delivery = 1
delivery_to_byte stable_result_delivery = 2

-- `Err(())`
abbrev no_core {ℓ} : {A : Type ℓ} → Result A
no_core = err ""

unfoldable pub delivery_from_byte : ℕ → Result DeliveryType
delivery_from_byte b =
    if b == 0
    then ok data_delivery
    else if b == 1
    then ok stable_connect_delivery
    else if b == 2
    then ok stable_result_delivery
    else no_core

-- A delivery id is a `u64`, in eight bytes.
unfoldable pub core_to_bytes : CoreData → Bytes
core_to_bytes ping = 1 ∷ []
core_to_bytes pong = 2 ∷ []
core_to_bytes (payload tid bytes) = 3 ∷ (to_le_bytes 8 tid ++ bytes)
core_to_bytes (delivery t tid bytes) = 4 ∷ delivery_to_byte t ∷ (to_le_bytes 8 tid ++ bytes)
core_to_bytes (stable_connect tid bytes) = 5 ∷ (to_le_bytes 8 tid ++ bytes)
core_to_bytes (stable_result tid is_ok bytes) =
    6 ∷ (to_le_bytes 8 tid ++ (if is_ok then 1 else 0) ∷ bytes)
core_to_bytes (result_connect tid bytes) = 7 ∷ (to_le_bytes 8 tid ++ bytes)
core_to_bytes unstable = 8 ∷ []

-- The cases that read an id and leave the rest.
unfoldable pub read_tid : (ℕ → Bytes → CoreData) → Bytes → Result CoreData
read_tid make bytes = do
  reject (ltb (length bytes) 8) ""
  ok (make (from_le_bytes (take 8 bytes)) (drop 8 bytes))

unfoldable pub read_delivery : Bytes → Result CoreData
read_delivery bytes = do
  reject (ltb (length bytes) 9) ""
  t ← delivery_from_byte (byte_at bytes 0)
  let bytes = drop 1 bytes
  ok (delivery t (from_le_bytes (take 8 bytes)) (drop 8 bytes))

unfoldable pub read_stable_result : Bytes → Result CoreData
read_stable_result bytes = do
  reject (ltb (length bytes) 9) ""
  let tid = from_le_bytes (take 8 bytes)
  let bytes = drop 8 bytes
  ok (stable_result tid (byte_at bytes 0 == 1) (drop 1 bytes))

-- the `match` on the first byte
unfoldable pub read_core : ℕ → Bytes → Result CoreData
read_core t bytes =
    if t == 1
    then ok ping
    else if t == 2
    then ok pong
    else if t == 3
    then read_tid payload bytes
    else if t == 4
    then read_delivery bytes
    else if t == 5
    then read_tid stable_connect bytes
    else if t == 6
    then read_stable_result bytes
    else if t == 7
    then read_tid result_connect bytes
    else if t == 8
    then ok unstable
    else no_core

unfoldable pub core_from_bytes : Bytes → Result CoreData
core_from_bytes bytes = do
  reject (ltb (length bytes) 1) ""
  read_core (byte_at bytes 0) (drop 1 bytes)
