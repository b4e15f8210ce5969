-- ===== src/Session/Steps.antt =====
-- src/session.rs: the actions of Session/State in sequence and under a test.
use chamomile.Prelude.{Bool, true, ◌≡◌, ap}
use chamomile.Prelude.Result.{ok}
use chamomile.Session.State.{State, Act, ◌>>◌, continue, when}

pub >>-ok :
    {B : Type 0} (m : Act Unit) (k : Act B) {s s' : State} → m s ≡ (ok tt, s') → (m >> k) s ≡ k s'
>>-ok m k e = ap (λ x. continue x.0 (λ u. k) x.1) e

pub when-true : {b : Bool} (m : Act Unit) (s : State) → b ≡ true → when b m s ≡ m s
when-true m s e = ap (λ b. when b m s) e
