-- ===== src/Prelude/Act.antt =====
-- Actions on a state `S`, in the way in which an `async fn` that returns a `Result` uses `?`: an action
-- gives a result and the state after it.
use Prim.Native.String.{String}
use mathlib.Core.Bool.{Bool, true, false}
use chamomile.Prelude.Result.{Result, ok, err}

abbrev pub ActOn : Type 0 → Type 0 → Type 0
ActOn S A = S → Result A × S

module _ {S : Type 0} where
  abbrev pub continue : {A B : Type 0} → Result A → (A → ActOn S B) → ActOn S B
  continue (ok a) f s = f a s
  continue (err e) f s = (err e, s)

  -- `?` after each step
  infixl 5 ◌>>=◌ ◌>>◌
  abbrev pub ◌>>=◌ : {A B : Type 0} → ActOn S A → (A → ActOn S B) → ActOn S B
  ◌>>=◌ m f s = let (r, s') = m s in continue r f s'

  abbrev pub ◌>>◌ : {B : Type 0} → ActOn S Unit → ActOn S B → ActOn S B
  m >> k = m >>= λ _. k

  abbrev pub pure : {A : Type 0} → A → ActOn S A
  pure a s = (ok a, s)

  abbrev pub fail : {A : Type 0} → String → ActOn S A
  fail e s = (err e, s)

  abbrev pub when : Bool → ActOn S Unit → ActOn S Unit
  when true m = m
  when false m = pure tt

  -- `let _ = …;`
  abbrev pub ignore : {A : Type 0} → ActOn S A → ActOn S Unit
  ignore m s = (ok tt, (m s).1)

  abbrev pub gets : {A : Type 0} → (S → A) → ActOn S A
  gets f s = (ok (f s), s)
