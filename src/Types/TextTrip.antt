-- ===== src/Types/TextTrip.antt =====
-- types/src/types.rs and types/src/peer.rs: what comes back from a text form.
use chamomile.Prelude.{
  ℕ, ◌*◌, ◌/◌, ◌%◌, ◌<◌, Bool, true, false, ◌==◌, some, [], ◌∷◌, ◌++◌, length, ◌≡◌, refl, ap, arith,
  All, eq→==,
}
use chamomile.Prelude.Bytes.{Bytes, IsByte}
use chamomile.Prelude.Result.{ok}
use chamomile.Types.Ids.{PeerId, IsPeerId, TransportType, quic, tcp, rtp, udt}
use chamomile.Types.Text.{
  hex_digit, hex_of, hex_value, from_str_radix, read_hex, cons_if, id_of_bytes, id_to_hex,
  id_from_hex, transport_to_str, transport_from_str,
}
use chamomile.Types.PeerText.{split, first_piece, print_bool, parse_bool}

hex_value-hex_digit : (d : ℕ) → d < 16 → hex_value (hex_digit d) ≡ some d
unfolding hex_value hex_digit
hex_value-hex_digit d h = ground arith

hex_digit-plus : (d : ℕ) → d < 16 → (hex_digit d == 43) ≡ false
unfolding hex_digit
hex_digit-plus d h = ground arith

from_str_radix-hex_digit :
    (b : ℕ) → b < 256 → from_str_radix (hex_digit (b / 16)) (hex_digit (b % 16)) ≡ some b
unfolding from_str_radix
from_str_radix-hex_digit b h =
    let high : b / 16 < 16 = omega arith in
    let low : b % 16 < 16 = omega arith in
    rw
      (
        hex_digit-plus (b / 16) high,
        hex_value-hex_digit (b / 16) high,
        hex_value-hex_digit (b % 16) low,
      )
      (ap some (omega arith))

pub read_hex-hex_of : (bytes : Bytes) → All IsByte bytes → read_hex (hex_of bytes) ≡ some bytes
unfolding read_hex hex_of cons_if
read_hex-hex_of [] h = refl
read_hex-hex_of (b ∷ bytes) h = rw (from_str_radix-hex_digit b h.0, read_hex-hex_of bytes h.1)

length-hex_of : (bytes : Bytes) → length (hex_of bytes) ≡ 2 * length bytes
unfolding hex_of
length-hex_of [] = refl
length-hex_of (b ∷ bytes) = omega (arith, length-hex_of bytes)

-- A peer id comes back from its hexadecimal text.
pub id_from_hex-id_to_hex : (p : PeerId) → IsPeerId p → id_from_hex (id_to_hex p) ≡ ok p
unfolding id_from_hex id_to_hex id_of_bytes
id_from_hex-id_to_hex p h = rw (
  eq→== (length (hex_of p.raw)) 64 (omega (arith, length-hex_of p.raw, h.0)),
  read_hex-hex_of p.raw h.1,
)

pub transport_from_str-transport_to_str :
    (t : TransportType) → transport_from_str (transport_to_str t) ≡ t
unfolding transport_from_str transport_to_str
transport_from_str-transport_to_str quic = ground arith
transport_from_str-transport_to_str tcp = ground arith
transport_from_str-transport_to_str rtp = ground arith
transport_from_str-transport_to_str udt = ground arith

pub parse_bool-print_bool : (b : Bool) → parse_bool (print_bool b) ≡ some b
unfolding parse_bool print_bool
parse_bool-print_bool true = ground arith
parse_bool-print_bool false = ground arith

-- bytes without the separator
abbrev pub Lacks : ℕ → Bytes → Type 0
Lacks sep bytes = All (λ b. (b == sep) ≡ false) bytes

pub split-piece :
    (sep : ℕ) (piece rest : Bytes)
    → Lacks sep piece
    → split sep (piece ++ sep ∷ rest) ≡ piece ∷ split sep rest
unfolding split first_piece
split-piece sep [] rest h = rw (eq→== sep sep refl)
split-piece sep (b ∷ piece) rest h = rw (h.0, split-piece sep piece rest h.1)

pub split-last : (sep : ℕ) (piece : Bytes) → Lacks sep piece → split sep piece ≡ piece ∷ []
unfolding split first_piece
split-last sep [] h = refl
split-last sep (b ∷ piece) h = rw (h.0, split-last sep piece h.1)
