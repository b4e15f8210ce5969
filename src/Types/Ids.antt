-- ===== src/Types/Ids.antt =====
-- types/src/types.rs: `PeerId` and `TransportType`.
use chamomile.Prelude.{ℕ, ℕ_discrete, ◌==◌, not, length, replicate, if◌then◌else◌}
use chamomile.Prelude.Bytes.{Bytes, IsArray}
use chamomile.Prelude.Result.{Result, ok, err, reject, ◌>>◌}

pub record PeerId : Type 0 where
  pub raw : Bytes

pub PeerId-discrete : Discrete PeerId
PeerId-discrete = hlevel ℕ_discrete

abbrev pub peer_id_length : ℕ
peer_id_length = 32

-- `PeerId([u8; 32])`
abbrev pub IsPeerId : PeerId → Type 0
IsPeerId p = IsArray 32 p.raw

-- `Default::default()`
abbrev pub default_id : PeerId
default_id = record { raw = replicate 32 0 }

unfoldable pub id_from_bytes : Bytes → Result PeerId
id_from_bytes bytes = do
  reject (not (length bytes == 32)) "peer id bytes failure."
  ok (record { raw = bytes })

unfoldable pub id_to_bytes : PeerId → Bytes
id_to_bytes p = p.raw

pub data TransportType : Type 0 where
  quic tcp rtp udt : TransportType

pub TransportType-discrete : Discrete TransportType
TransportType-discrete = hlevel

unfoldable pub transport_from_byte : ℕ → Result TransportType
transport_from_byte b =
    if b == 0
    then ok quic
    else if b == 1
    then ok tcp
    else if b == 2
    then ok rtp
    else if b == 3
    then ok udt
    else err "transport bytes failure."

unfoldable pub transport_to_byte : TransportType → ℕ
transport_to_byte quic = 0
transport_to_byte tcp = 1
transport_to_byte rtp = 2
transport_to_byte udt = 3
