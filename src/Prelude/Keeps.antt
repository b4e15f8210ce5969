-- ===== src/Prelude/Keeps.antt =====
-- Predicates that an action keeps, one rule for each way to build an action.
use mathlib.Core.Bool.{Bool, true, false}
use chamomile.Prelude.Tests.{if◌then◌else◌}
use chamomile.Prelude.Result.{Result, ok, err}
use chamomile.Prelude.Act.{ActOn, continue, ◌>>◌, ignore, when}

abbrev pub Keeps : {S A : Type 0} → (S → Type 0) → ActOn S A → Type 0
Keeps {S} P m = (s : S) → P s → P (m s).1

module _ {S : Type 0} (P : S → Type 0) where
  continue-Keeps :
      {A B : Type 0} (r : Result A) (k : A → ActOn S B) (s : S)
      → ((a : A) → Keeps P (k a))
      → P s
      → P (continue r k s).1
  continue-Keeps (ok a) k s kept h = kept a s h
  continue-Keeps (err e) k s kept h = h

  pub >>-Keeps :
      {B : Type 0} (m : ActOn S Unit) (k : ActOn S B) → Keeps P m → Keeps P k → Keeps P (m >> k)
  >>-Keeps m k hm hk s h = continue-Keeps (m s).0 (λ u. k) (m s).1 (λ u. hk) (hm s h)

  pub ignore-Keeps : {A : Type 0} (m : ActOn S A) → Keeps P m → Keeps P (ignore m)
  ignore-Keeps m hm s h = hm s h

  pub when-Keeps : (b : Bool) (m : ActOn S Unit) → Keeps P m → Keeps P (when b m)
  when-Keeps true m hm s h = hm s h
  when-Keeps false m hm s h = h

  pub ite-Keeps :
      {A : Type 0} (b : Bool) (m n : ActOn S A) (s : S)
      → P (m s).1
      → P (n s).1
      → P (if b then m s else n s).1
  ite-Keeps true m n s hm hn = hm
  ite-Keeps false m n s hm hn = hn
