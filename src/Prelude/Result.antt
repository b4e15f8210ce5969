-- ===== src/Prelude/Result.antt =====
-- `std::io::Result`: the errors are all of kind `Other` and are told apart by their text.
use Prim.Native.String.{String}
use mathlib.Core.Option.{Option, none, some}
use mathlib.Core.Bool.{Bool, true, false}

pub data Result {ℓ} (A : Type ℓ) : Type ℓ where
  ok : A → Result A
  err : String → Result A

-- `?` on a result, with what comes after it
module _ {ℓ κ} {A : Type ℓ} {B : Type κ} where
  infixl 5 ◌>>=◌
  abbrev pub ◌>>=◌ : Result A → (A → Result B) → Result B
  err e >>= next = err e
  ok a >>= next = next a

module _ {κ} {B : Type κ} where
  infixl 5 ◌>>◌
  abbrev pub ◌>>◌ : Result (Unit {0}) → Result B → Result B
  test >> next = test >>= λ u. next

-- `if bad { return Err(new_io_error(e)); }`
abbrev pub reject : Bool → String → Result (Unit {0})
reject true e = err e
reject false e = ok tt

abbrev pub is_ok {ℓ} : {A : Type ℓ} → Result A → Bool
is_ok (ok a) = true
is_ok (err e) = false

-- `o.ok_or(new_io_error(e))`
abbrev pub ok_or {ℓ} : {A : Type ℓ} → Option A → String → Result A
ok_or (some a) e = ok a
ok_or none e = err e

-- `r.map_err(|_| new_io_error(e))`
abbrev pub map_err {ℓ} : {A : Type ℓ} → Result A → String → Result A
map_err (ok a) e = ok a
map_err (err _) e = err e
