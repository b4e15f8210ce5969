-- ===== src/Kad/Distance.antt =====
-- src/kad.rs: `Distance` and the trait `Key`. A bit vector is the sequence of its bits.
use chamomile.Prelude.{
  ℕ, zero, suc, Bool, true, false, List, [], ◌∷◌, leb, if◌then◌else◌, replicate, not,
}

abbrev pub Distance : Type 0
Distance = List Bool

-- The order and `from_bytes` of the crate bit_vec are not part of the program: `closer` is the
-- order `<` on distances, and `distance` makes the bits of a key.
pub record Key (K : Type 0) : Type 0 where
  pub eq : Discrete K
  pub key_length : ℕ
  pub distance : K → Distance
  pub closer : Distance → Distance → Bool

-- `self.0[index]`; the source panics past the end, where it never reads.
unfoldable pub bit : Distance → ℕ → Bool
bit [] i = false
bit (b ∷ d) zero = b
bit (b ∷ d) (suc i) = bit d i

-- `Distance::get`
unfoldable pub get_bit : Distance → ℕ → Bool
get_bit d index = if leb 160 index then false else bit d index

-- `Distance::max`
abbrev pub max_distance : ℕ → Distance
max_distance len = replicate len true

unfoldable pub neq : Bool → Bool → Bool
neq true b = not b
neq false b = b

unfoldable pub head_bit : Distance → Bool
head_bit [] = false
head_bit (b ∷ d) = b

unfoldable pub tail_bits : Distance → Distance
tail_bits [] = []
tail_bits (b ∷ d) = d

-- `Distance::xor`, bit after bit
unfoldable pub xor : ℕ → Distance → Distance → Distance
unfolding neq head_bit tail_bits
xor zero a b = []
xor (suc len) a b = neq (head_bit a) (head_bit b) ∷ xor len (tail_bits a) (tail_bits b)

unfoldable pub calc_distance : {K : Type 0} → Key K → K → K → Distance
calc_distance key base target = xor key.key_length (key.distance base) (key.distance target)
