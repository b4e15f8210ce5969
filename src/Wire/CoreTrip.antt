-- ===== src/Wire/CoreTrip.antt =====
-- src/session.rs: `CoreData` to bytes and back.
use chamomile.Prelude.{
  ℕ, suc, ◌+◌, ◌<◌, ◌^◌, Bool, true, false, ◌∷◌, ◌++◌, ◌≡◌, refl, arith, ltb-false, ◌==◌,
  ltb-suc-one, length, length-append, take, drop, take-append_of, drop-append_of, if◌then◌else◌,
}
use chamomile.Prelude.Bytes.{
  Bytes, to_le_bytes, from_le_bytes, length-to_le_bytes, from_le_bytes-to_le_bytes,
}
use chamomile.Prelude.Result.{ok}
use chamomile.Types.Message.{
  DeliveryType, data_delivery, stable_connect_delivery, stable_result_delivery,
}
use chamomile.Wire.Core.{
  CoreData, ping, pong, payload, delivery, stable_connect, stable_result, result_connect, unstable,
  delivery_to_byte, delivery_from_byte, core_to_bytes, read_tid, read_delivery, read_stable_result,
  read_core, core_from_bytes,
}

-- The id of a message fits in a `u64`.
abbrev pub HasTid : CoreData → Type 0
HasTid ping = Unit
HasTid pong = Unit
HasTid unstable = Unit
HasTid (payload tid bytes) = tid < 256 ^ 8
HasTid (delivery t tid bytes) = tid < 256 ^ 8
HasTid (stable_connect tid bytes) = tid < 256 ^ 8
HasTid (stable_result tid is_ok bytes) = tid < 256 ^ 8
HasTid (result_connect tid bytes) = tid < 256 ^ 8

delivery_byte : (t : DeliveryType) → delivery_from_byte (delivery_to_byte t) ≡ ok t
unfolding delivery_from_byte delivery_to_byte
delivery_byte data_delivery = refl
delivery_byte stable_connect_delivery = refl
delivery_byte stable_result_delivery = refl

ok_flag : (b : Bool) → ((if b then 1 else 0) == 1) ≡ b
ok_flag true = refl
ok_flag false = refl

module _ (tid : ℕ) (bytes : Bytes) where
  tid_bytes : Bytes
  tid_bytes = to_le_bytes 8 tid ++ bytes

  tid_first : tid < 256 ^ 8 → from_le_bytes (take 8 tid_bytes) ≡ tid
  unfolding tid_bytes
  tid_first h =
      rw (take-append_of 8 (to_le_bytes 8 tid) bytes (length-to_le_bytes 8 tid))
        (from_le_bytes-to_le_bytes 8 tid h)

  tid_rest : drop 8 tid_bytes ≡ bytes
  unfolding tid_bytes
  tid_rest = drop-append_of 8 (to_le_bytes 8 tid) bytes (length-to_le_bytes 8 tid)

  tid_room : length tid_bytes ≡ 8 + length bytes
  unfolding tid_bytes
  tid_room = omega (arith, length-append (to_le_bytes 8 tid) bytes, length-to_le_bytes 8 tid)

read_tid_lem :
    (make : ℕ → Bytes → CoreData) (tid : ℕ) (bytes : Bytes)
    → tid < 256 ^ 8
    → read_tid make (to_le_bytes 8 tid ++ bytes) ≡ ok (make tid bytes)
unfolding read_tid tid_bytes
read_tid_lem make tid bytes h = rw (
  ltb-false (length (tid_bytes tid bytes)) 8 (omega (arith, tid_room tid bytes)),
  tid_first tid bytes h,
  tid_rest tid bytes,
)

read_delivery_lem :
    (t : DeliveryType) (tid : ℕ) (bytes : Bytes)
    → tid < 256 ^ 8
    → read_delivery (delivery_to_byte t ∷ (to_le_bytes 8 tid ++ bytes)) ≡ ok (delivery t tid bytes)
unfolding read_delivery tid_bytes
read_delivery_lem t tid bytes h = rw (
  ltb-false (suc (length (tid_bytes tid bytes))) 9 (omega (arith, tid_room tid bytes)),
  delivery_byte t,
  tid_first tid bytes h,
  tid_rest tid bytes,
)

read_stable_result_lem :
    (tid : ℕ) (is_ok : Bool) (bytes : Bytes)
    → tid < 256 ^ 8
    → read_stable_result (to_le_bytes 8 tid ++ (if is_ok then 1 else 0) ∷ bytes)
      ≡ ok (stable_result tid is_ok bytes)
unfolding read_stable_result tid_bytes
read_stable_result_lem tid is_ok bytes h =
    let rest : Bytes = (if is_ok then 1 else 0) ∷ bytes in
    rw (
      ltb-false (length (tid_bytes tid rest)) 9 (omega (arith, tid_room tid rest)),
      tid_first tid rest h,
      tid_rest tid rest,
      ok_flag is_ok,
    )

-- Core data comes back from its bytes as it was, whatever its kind, if its id fits in a `u64`.
pub core_from_bytes-core_to_bytes :
    (m : CoreData) → HasTid m → core_from_bytes (core_to_bytes m) ≡ ok m
unfolding core_from_bytes core_to_bytes read_core
core_from_bytes-core_to_bytes ping h = refl
core_from_bytes-core_to_bytes pong h = refl
core_from_bytes-core_to_bytes unstable h = refl
core_from_bytes-core_to_bytes (payload tid bytes) h =
    rw (ltb-suc-one (length (to_le_bytes 8 tid ++ bytes)), read_tid_lem payload tid bytes h)
core_from_bytes-core_to_bytes (stable_connect tid bytes) h =
    rw (ltb-suc-one (length (to_le_bytes 8 tid ++ bytes)), read_tid_lem stable_connect tid bytes h)
core_from_bytes-core_to_bytes (result_connect tid bytes) h =
    rw (ltb-suc-one (length (to_le_bytes 8 tid ++ bytes)), read_tid_lem result_connect tid bytes h)
core_from_bytes-core_to_bytes (delivery t tid bytes) h =
    rw (ltb-suc-one (suc (length (to_le_bytes 8 tid ++ bytes))), read_delivery_lem t tid bytes h)
core_from_bytes-core_to_bytes (stable_result tid is_ok bytes) h = rw (
  ltb-suc-one (length (to_le_bytes 8 tid ++ (if is_ok then 1 else 0) ∷ bytes)),
  read_stable_result_lem tid is_ok bytes h,
)
