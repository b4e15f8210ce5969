-- ===== src/Types/Text.antt =====
-- types/src/types.rs and types/src/peer.rs: the text forms of `PeerId`, `TransportType` and `Peer`. A text
-- is its bytes in ASCII. How the standard library prints and parses addresses and ports is an argument.
use chamomile.Prelude.{
  ℕ, ◌+◌, ◌-◌, ◌*◌, ◌/◌, ◌%◌, ◌&&◌, ◌==◌, leb, Option, none, some, [], ◌∷◌, length, equal,
  ℕ_discrete, if◌then◌else◌,
}
use chamomile.Prelude.Bytes.{Bytes}
use chamomile.Prelude.Maybe.{◌>>=◌, map_option}
use chamomile.Prelude.Result.{Result, ok, err}
use chamomile.Types.Ids.{PeerId, TransportType, quic, tcp, rtp, udt}

pub bytes-discrete : Discrete Bytes
bytes-discrete = hlevel ℕ_discrete

-- one digit of `{:02x?}`
unfoldable pub hex_digit : ℕ → ℕ
hex_digit d = if leb d 9 then 48 + d else 87 + d

-- `PeerId::to_hex`
unfoldable pub hex_of : Bytes → Bytes
unfolding hex_digit
hex_of [] = []
hex_of (b ∷ bytes) = hex_digit (b / 16) ∷ hex_digit (b % 16) ∷ hex_of bytes

unfoldable pub id_to_hex : PeerId → Bytes
unfolding hex_of
id_to_hex p = hex_of p.raw

unfoldable pub hex_value : ℕ → Option ℕ
hex_value b =
    if leb 48 b && leb b 57
    then some (b - 48)
    else if leb 97 b && leb b 102
    then some (b - 87)
    else if leb 65 b && leb b 70
    then some (b - 55)
    else none

-- `u8::from_str_radix(…, 16)` on two bytes; the first may be a plus sign
unfoldable pub from_str_radix : ℕ → ℕ → Option ℕ
unfolding hex_value
from_str_radix a b =
    if a == 43
    then hex_value b
    else (hex_value a >>= λ x. map_option (λ y. 16 * x + y) (hex_value b))

unfoldable pub cons_if : Option ℕ → Option Bytes → Option Bytes
cons_if none bytes = none
cons_if (some b) bytes = map_option (λ bs. b ∷ bs) bytes

-- the loop of `from_hex`, two bytes of the text at a time
unfoldable pub read_hex : Bytes → Option Bytes
unfolding cons_if from_str_radix
read_hex [] = some []
read_hex (a ∷ []) = some []
read_hex (a ∷ b ∷ s) = cons_if (from_str_radix a b) (read_hex s)

unfoldable pub id_of_bytes : Option Bytes → Result PeerId
id_of_bytes none = err "peer hex failure."
id_of_bytes (some bytes) = ok (record { raw = bytes })

-- `PeerId::from_hex`
unfoldable pub id_from_hex : Bytes → Result PeerId
unfolding read_hex id_of_bytes
id_from_hex s = if length s == 64 then id_of_bytes (read_hex s) else err "peer bytes failure."

abbrev pub quic_text : Bytes
quic_text = 113 ∷ 117 ∷ 105 ∷ 99 ∷ []

abbrev pub tcp_text : Bytes
tcp_text = 116 ∷ 99 ∷ 112 ∷ []

abbrev pub rtp_text : Bytes
rtp_text = 114 ∷ 116 ∷ 112 ∷ []

abbrev pub udt_text : Bytes
udt_text = 117 ∷ 100 ∷ 116 ∷ []

unfoldable pub transport_to_str : TransportType → Bytes
transport_to_str quic = quic_text
transport_to_str tcp = tcp_text
transport_to_str rtp = rtp_text
transport_to_str udt = udt_text

unfoldable pub transport_from_str : Bytes → TransportType
transport_from_str s =
    if equal bytes-discrete s quic_text
    then quic
    else if equal bytes-discrete s tcp_text
    then tcp
    else if equal bytes-discrete s rtp_text
    then rtp
    else if equal bytes-discrete s udt_text
    then udt
    else quic
