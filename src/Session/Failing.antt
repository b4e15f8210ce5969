-- ===== src/Session/Failing.antt =====
-- src/session.rs: how `relay_stable` ends where no session opens.
use chamomile.Prelude.{
  ℕ, Bool, true, false, ◌==◌, Option, none, some, [], ◌∷◌, ◌++◌, equal_no, equal_yes, ◌≡◌, ◌≢◌,
  refl, ap, ◌∙◌, arith, if◌then◌else◌, List, subst, sym, Bool-cases, inl, inr, String,
}
use chamomile.Prelude.Bytes.{Bytes}
use chamomile.Prelude.Result.{Result, ok, err}
use chamomile.Prelude.Act.{◌>>◌, continue, fail}
use chamomile.Prelude.Map
use chamomile.Prelude.Maybe.{map_option}
use chamomile.Types.Ids.{PeerId, PeerId-discrete}
use chamomile.Types.Peer.{Peer, default_peer}
use chamomile.Types.Message.{ReceiveMessage, stable_connect_delivery}
use chamomile.Keys.Keypair.{peer_id}
use chamomile.Keys.Session.{SessionKey, complete}
use chamomile.Wire.Endpoint.{RemotePublic}
use chamomile.Store.Buffer
use chamomile.Store.Buffer.{Buffer, Queue, Tmp, get_tmp_session}
use chamomile.Store.Global as Shared
use chamomile.Store.Global.{Shared}
use chamomile.Session.State.{SessionMessage, Global, Effect, outside, to_session, generate_remote}
use chamomile.Session.Delivery.{Accepts}
use chamomile.Server.State.{Server, told, send}
use chamomile.Session.Stable.{
  Arrivals, relay_result_of, drop_tmp, report_failed, relay_opened, relay_answered, relay_with,
  relay_stable,
}

-- no connect data, no result data and no session waits for the peer
pub record IsCleared (p : PeerId) (b : Buffer) : Type 0 where
  pub connects : Map.get PeerId-discrete p b.connects ≡ none
  pub results : Map.get PeerId-discrete p b.results ≡ none
  pub tmp : get_tmp_session p b ≡ none

-- the log with the failure of a delivery, where the message has a delivery id
unfoldable pub failure : ℕ → Bytes → List Effect → List Effect
failure tid delivery log =
    if tid == 0
    then log
    else log ++ outside (ReceiveMessage.delivery stable_connect_delivery tid false delivery) ∷ []

-- the state without the session of the peer in the buffer
abbrev cleared : PeerId → Server → Server
cleared p s = record s { shared = record s.shared { buffer = (Buffer.remove_tmp p s.buffer).1 } }

module _ (g : Global) (all : Accepts g) where
  pub send_lem :
      (e : Effect) (missing : String) (s : Server) → send g e missing s ≡ (ok tt, told e s)
  unfolding send
  send_lem e missing s = rw (all s.log e)

  report_lem :
      (tid : ℕ) (delivery : Bytes) (s : Server)
      → report_failed g tid delivery s ≡ (ok tt, record s { log = failure tid delivery s.log })
  unfolding report_failed failure
  report_lem tid delivery s =
      let e : Effect =
        outside (ReceiveMessage.delivery stable_connect_delivery tid false delivery) in
      elim (Bool-cases (tid == 0)) [
        | inl z ↦ rw z refl
        | inr n ↦ rw n (send_lem e "Outside missing" s)
      ]

module _ (g : Global) (to : Peer) where
  -- why the answer of the relay opens no session: there is none, it is from another peer, or its key
  -- cannot be completed
  pub data IsUnanswered : Option (RemotePublic × ℕ) → SessionKey → Type 0 where
    no_answer : (key : SessionKey) → IsUnanswered none key
    unknown :
        (remote : RemotePublic) (ss : ℕ) (key : SessionKey)
        → peer_id g.crypto remote.key ≢ to.id
        → IsUnanswered (some (remote, ss)) key
    bad_key :
        (remote : RemotePublic) (ss : ℕ) (key : SessionKey)
        → peer_id g.crypto remote.key ≡ to.id
        → to.id ≢ g.peer.id
        → (complete g.crypto key remote.key.pk remote.dh).0 ≡ false
        → IsUnanswered (some (remote, ss)) key

  -- the log with the report, which only a missing answer gets
  unfoldable pub reported :
      {r : Option (RemotePublic × ℕ)} {key : SessionKey}
      → IsUnanswered r key
      → ℕ
      → Bytes
      → List Effect
      → List Effect
  reported (no_answer key) tid delivery log = failure tid delivery log
  reported (unknown remote ss key n) tid delivery log = log
  reported (bad_key remote ss key e n b) tid delivery log = log

module _ (g : Global) (tid : ℕ) (delivery : Bytes) (to : Peer) (is_recv_data : Bool)
    (arrivals : Arrivals) where
  relay_opened-false :
      (r : Bool × SessionKey) (remote : RemotePublic) (ss channel stream : ℕ)
      (connects results : Queue) (s : Server)
      → r.0 ≡ false
      → relay_opened g tid delivery to is_recv_data arrivals r remote ss channel stream connects
          results s
        ≡ (err "session stable key failure.", cleared to.id s)
  unfolding relay_opened drop_tmp
  relay_opened-false (false, key) remote ss channel stream connects results s e = refl
  relay_opened-false (true, key) remote ss channel stream connects results s e =
      absurd (ground arith)

  relay_answered_lem :
      Accepts g
      → {r : Option (RemotePublic × ℕ)} {key : SessionKey}
      → (u : IsUnanswered g to r key) (channel stream : ℕ) (connects results : Queue) (s : Server)
      → (e : String) × (relay_answered g tid delivery to is_recv_data arrivals r key channel stream
            connects results s
          ≡ (err e, cleared to.id (record s { log = reported g to u tid delivery s.log })))
  unfolding relay_answered reported drop_tmp
  relay_answered_lem all (no_answer key) channel stream connects results s = (
    "session relay reach faiure.",
    ap (λ x. continue x.0 (λ u. do drop_tmp to.id; fail "session relay reach faiure.") x.1)
        (report_lem g all tid delivery s),
  )
  relay_answered_lem all (unknown remote ss key n) channel stream connects results s = (
    "session stable unknown peer.",
    rw (equal_no PeerId-discrete (peer_id g.crypto remote.key) to.id n) refl,
  )
  relay_answered_lem all (bad_key remote ss key e n b) channel stream connects results s = (
    "session stable key failure.",
    rw (e, equal_yes PeerId-discrete to.id to.id refl, equal_no PeerId-discrete to.id g.peer.id n)
        (relay_opened-false (complete g.crypto key remote.key.pk remote.dh) remote ss channel stream
          connects results s b),
  )

  -- what waits for the peer, with the session of the task in the buffer
  abbrev waiting : Server → Queue × Queue × Shared
  waiting s =
      Shared.add_all_tmp to.id
        (record {
          session = g.new_session_channel s.log;
          stream = g.new_stream s.log;
          peer = default_peer;
        })
        false s.shared

  relay_stable_lem :
      Accepts g
      → (ss : ℕ) (s : Server) (key : SessionKey) (remote_pk : RemotePublic)
      → generate_remote g (g.draw s.log) ≡ ok (key, remote_pk)
      → (u : IsUnanswered g to (relay_result_of arrivals.on_session) key)
      → (e : String) × (relay_stable g tid delivery to is_recv_data arrivals ss s ≡ (
        err e,
        cleared to.id (record {
          shared = (waiting s).2;
          log =
              reported g to u tid delivery
                (s.log ++ to_session ss (SessionMessage.relay_connect remote_pk to.id) ∷ []);
        }),
      ))
  unfolding relay_stable relay_with
  relay_stable_lem all ss s key remote_pk made u =
      let (connects, results, shared) = waiting s in
      let asked = to_session ss (SessionMessage.relay_connect remote_pk to.id) in
      let (e, answered) =
        relay_answered_lem all u (g.new_session_channel s.log) (g.new_stream s.log) connects results
          (record { shared = shared; log = s.log ++ asked ∷ [] }) in
      (
        e,
        ap (λ r. relay_with g tid delivery to is_recv_data arrivals r ss s) made
            ∙ ap
                (λ x.
                  continue x.0
                    (λ u.
                      relay_answered g tid delivery to is_recv_data arrivals
                        (relay_result_of arrivals.on_session) key (g.new_session_channel s.log)
                        (g.new_stream s.log) connects results)
                    x.1)
                (send_lem g all asked "Session missing" (record { shared = shared; log = s.log }))
            ∙ answered,
      )

  -- When a task has asked the relay for a connection to a peer, and no answer comes, or one of another
  -- peer, or one whose key cannot be completed, it ends with an error: nothing waits for the peer any
  -- more and the peers are as they were. After the request, a missing answer is reported, where the
  -- message has a delivery id; an answer of another peer and a bad key are reported to nobody, whatever
  -- the delivery id. The channels take what is sent.
  pub relay_stable_fails :
      Accepts g
      → (ss : ℕ) (s : Server) (key : SessionKey) (remote_pk : RemotePublic)
      → generate_remote g (g.draw s.log) ≡ ok (key, remote_pk)
      → (u : IsUnanswered g to (relay_result_of arrivals.on_session) key)
      → let s' = (relay_stable g tid delivery to is_recv_data arrivals ss s).1 in
        (e : String) × ((relay_stable g tid delivery to is_recv_data arrivals ss s).0 ≡ err e)
        × IsCleared to.id s'.buffer
        × (s'.peers ≡ s.peers)
        × (s'.log
            ≡ reported g to u tid delivery
                (s.log ++ to_session ss (SessionMessage.relay_connect remote_pk to.id) ∷ []))
  unfolding Shared.add_all_tmp Buffer.remove_tmp Buffer.add_tmp Buffer.remove_connect
      Buffer.remove_result get_tmp_session
  relay_stable_fails all ss s key remote_pk made u =
      let (e, eq) = relay_stable_lem all ss s key remote_pk made u in
      (
        e,
        ap (λ x. x.0) eq,
        subst (λ (x : Result Unit × Server). IsCleared to.id x.1.buffer) (sym eq)
            (record {
              connects = Map.get-remove_self PeerId-discrete to.id s.buffer.connects;
              results = Map.get-remove_self PeerId-discrete to.id s.buffer.results;
              tmp =
                  ap (map_option (λ (t : Bool × Tmp). t.1.value.session))
                    (Map.get-remove_self PeerId-discrete to.id _);
            }),
        ap (λ x. x.1.peers) eq,
        ap (λ x. x.1.log) eq,
      )
