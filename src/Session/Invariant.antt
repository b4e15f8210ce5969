-- ===== src/Session/Invariant.antt =====
-- src/session.rs: a predicate on sessions, and what keeps it.
pub mod Core
pub mod Outside
pub mod Endpoint
pub mod Loop
use chamomile.Prelude.{
  ℕ, ◌+◌, ◌≤◌, ◌<◌, Bool, true, false, not, ◌==◌, ◌≡◌, refl, arith, equal, ltb, Option, none, some,
  List, [], ◌∷◌, if◌then◌else◌,
}
use chamomile.Prelude.Bytes.{Bytes}
use chamomile.Prelude.Result.{Result, ok, err}
use chamomile.Types.Ids.{PeerId, PeerId-discrete}
use chamomile.Types.Peer.{Peer}
use chamomile.Types.Message.{
  ReceiveMessage, DeliveryType, data_delivery, stable_connect_delivery, stable_result_delivery,
}
use chamomile.Keys.Session.{SessionKey, encrypt, decrypt}
use chamomile.Wire.Core.{
  CoreData, ping, pong, payload, delivery, stable_connect, stable_result, result_connect, unstable,
  core_to_bytes,
}
use chamomile.Wire.Endpoint.{EndpointMessage, RemotePublic}
use chamomile.Store.Buffer
use chamomile.Store.PeerList
use chamomile.Store.PeerList.{Senders}
use chamomile.Store.Global as Shared
use chamomile.Session.State.{
  SessionMessage, ConnectType, direct, relay, Session, State, Global, Act, Effect, ◌>>=◌, ◌>>◌,
  continue, pure, fail, when, ignore, on_shared, modify_shared, modify, gets, send, out_send,
}

-- A session counts at most four unanswered heartbeats, and a stable session receives data.
pub record IsSession (x : Session) : Type 0 where
  pub beats : x.heartbeat ≤ 4
  pub receives : x.is_stable ≡ true → x.is_recv_data ≡ true

abbrev pub Keeps : {A : Type 0} → Act A → Type 0
Keeps m = (s : State) → IsSession s.session → IsSession (m s).1.session

pub continue-Keeps :
    {A B : Type 0} (r : Result A) (k : A → Act B) (s : State)
    → ((a : A) → Keeps (k a))
    → IsSession s.session
    → IsSession (continue r k s).1.session
continue-Keeps (ok a) k s kept h = kept a s h
continue-Keeps (err e) k s kept h = h

module _ {A B : Type 0} where
  pub >>=-Keeps : (m : Act A) (k : A → Act B) → Keeps m → ((a : A) → Keeps (k a)) → Keeps (m >>= k)
  >>=-Keeps m k hm hk s h = continue-Keeps (m s).0 k (m s).1 hk (hm s h)

  pub gets-Keeps : (f : State → A) (k : A → Act B) → ((a : A) → Keeps (k a)) → Keeps (gets f >>= k)
  gets-Keeps f k hk s h = hk (f s) s h

pub >>-Keeps : {B : Type 0} (m : Act Unit) (k : Act B) → Keeps m → Keeps k → Keeps (m >> k)
>>-Keeps m k hm hk = >>=-Keeps m (λ u. k) hm (λ u. hk)

pub ite-Keeps :
    {A : Type 0} (b : Bool) (m n : Act A) → Keeps m → Keeps n → Keeps (if b then m else n)
ite-Keeps true m n hm hn = hm
ite-Keeps false m n hm hn = hn

pub when-Keeps : (b : Bool) (m : Act Unit) → Keeps m → Keeps (when b m)
when-Keeps true m hm s h = hm s h
when-Keeps false m hm s h = h

pub ignore-Keeps : {A : Type 0} (m : Act A) → Keeps m → Keeps (ignore m)
ignore-Keeps m hm s h = hm s h

-- the same of two results
pub ite-IsSession :
    {A : Type 0} (b : Bool) (x y : Result A × State)
    → IsSession x.1.session
    → IsSession y.1.session
    → IsSession (if b then x else y).1.session
ite-IsSession true x y hx hy = hx
ite-IsSession false x y hx hy = hy
