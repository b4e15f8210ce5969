-- ===== src/Session/Upgrading.antt =====
-- src/session.rs and src/global.rs: the last steps of a task that opened a session, which make it stable.
use chamomile.Prelude.{ℕ, true, false, Option, none, some, List, [], ◌∷◌, ◌++◌, ◌≡◌, refl, ap, ◌∙◌}
use chamomile.Types.Ids.{PeerId}
use chamomile.Kad.Double.{KadValue}
use chamomile.Store.Buffer
use chamomile.Store.Buffer.{Tmp}
use chamomile.Store.PeerList
use chamomile.Store.Global as Shared
use chamomile.Store.Global.{Shared}
use chamomile.Session.State.{Session, SessionMessage, State, Global, Effect, to_session}
use chamomile.Session.Core.{tell_close, upgrade_shared, upgrade}
use chamomile.Session.Outside.{upgrade_if}
use chamomile.Session.Run.{FutureResult, listen}
use chamomile.Session.Stable.{upgrade_and_listen}
use chamomile.Server.State.{Server, in_session}

-- the log with the `Close` that an older session of the peer is sent, if there was one
abbrev pub closing : Option ℕ → List Effect → List Effect
closing none log = log
closing (some old) log = log ++ to_session old SessionMessage.close ∷ []

-- a session once it is stable
abbrev pub stable_session : Session → Session
stable_session x = record x { is_stable = true; is_recv_data = true }

-- the state once the peer `p` went from the buffer to the stable peers
abbrev pub made_stable : PeerId → KadValue → Server → Server
made_stable p v s =
    let (old, peers) = PeerList.add_stable p v true s.peers in
    record {
      shared = record { buffer = (Buffer.remove_tmp p s.buffer).1; peers = peers };
      log = closing old s.log;
    }

module _ (g : Global) where
  tell_close_lem :
      (old : Option ℕ) (s : State) → (tell_close g old s).1 ≡ record s { log = closing old s.log }
  unfolding tell_close
  tell_close_lem none s = refl
  tell_close_lem (some old) s = refl

  own_upgrade_lem :
      (x : Session) (v : KadValue) (events : List FutureResult) (s : Server)
      → x.is_stable ≡ false
      → (Buffer.remove_tmp x.remote_peer.id s.buffer).0
        ≡ some (record { value = v; is_direct = true })
      → in_session x (upgrade_and_listen g events) s
        ≡ in_session (stable_session x) (listen g events) (made_stable x.remote_peer.id v s)
  unfolding in_session upgrade_and_listen upgrade_if upgrade upgrade_shared Shared.upgrade
      Shared.upgrade_with
  own_upgrade_lem x v events s unstable tmp =
      rw (unstable, tmp)
        (ap
          (λ (u : State). (
            (listen g events u).0,
            record { shared = (listen g events u).1.shared; log = (listen g events u).1.log },
          ))
          (tell_close_lem (PeerList.add_stable x.remote_peer.id v true s.peers).0 (record {
            session = stable_session x;
            shared = (made_stable x.remote_peer.id v s).shared;
            log = s.log;
          })))

  -- A session whose peer `p` is in the buffer becomes stable, as does its peer, and then listens.
  pub upgrade_and_listen_lem :
      (x : Session) (p : PeerId) (v : KadValue) (events : List FutureResult) (s : Server)
      → x.is_stable ≡ false
      → x.remote_peer.id ≡ p
      → (Buffer.remove_tmp p s.buffer).0 ≡ some (record { value = v; is_direct = true })
      → in_session x (upgrade_and_listen g events) s
        ≡ in_session (stable_session x) (listen g events) (made_stable p v s)
  upgrade_and_listen_lem x p v events s unstable same tmp =
      own_upgrade_lem x v events s unstable (ap (λ q. (Buffer.remove_tmp q s.buffer).0) same ∙ tmp)
      ∙ ap (λ q. in_session (stable_session x) (listen g events) (made_stable q v s)) same
