-- ===== src/Session/Closing.antt =====
-- src/session.rs: `close`, `listen` and the end of `forever`.
use chamomile.Prelude.{
  Bool, true, false, not, if◌then◌else◌, ◌≡◌, refl, ap, ◌∙◌, arith, inl, inr, Bool-cases, none,
  List, ◌∷◌, String,
}
use chamomile.Prelude.Result.{Result, ok, err}
use chamomile.Prelude.Map
use chamomile.Types.Ids.{PeerId, PeerId-discrete}
use chamomile.Types.Message.{ReceiveMessage}
use chamomile.Wire.Endpoint.{EndpointMessage}
use chamomile.Store.Global.{Shared}
use chamomile.Store.Buffer
use chamomile.Store.PeerList
use chamomile.Session.State.{
  SessionMessage, ConnectType, direct, relay, State, Global, Act, ◌>>◌, continue, fail, when,
  ignore, out_send,
}
use chamomile.Session.Core.{
  is_direct, my_id, direct_send, direct_send_to, relay_send, leave_stable, drop_tmp, drop_peer,
  end_stable, close_stable, close_unstable, close,
}
use chamomile.Session.Steps.{>>-ok}
use chamomile.Session.Run.{FutureResult, forever, handle, listen, out}
use chamomile.Session.Outside.{handle_outside}

when-ignore :
    {A : Type 0} (b : Bool) (m : Act A) (s : State)
    → when b (ignore m) s ≡ (ok tt, (when b (ignore m) s).1)
when-ignore true m s = refl
when-ignore false m s = refl

-- The peer of a session that ended: not stable any more, nor in the buffer.
pub record IsGone (s s' : State) : Type 0 where
  pub no_stable :
      s.is_stable ≡ true → Map.get PeerId-discrete s.remote_peer.id s'.peers.stables ≡ none
  pub no_tmp : s.is_stable ≡ false → Map.get PeerId-discrete s.remote_peer.id s'.buffer.tmps ≡ none

module _ (g : Global) where
  direct_send_to-shared :
      (c : ConnectType) (m : EndpointMessage) (s : State)
      → (direct_send_to g c m s).1.shared ≡ s.shared
  unfolding direct_send_to
  direct_send_to-shared (direct i) m s = refl
  direct_send_to-shared (relay i) m s = refl

  abbrev told : State → State
  told s =
      (when (not (is_direct s)) (ignore (relay_send g (SessionMessage.relay_close (my_id g))))
        (out_send g (ReceiveMessage.stable_leave s.remote_peer.id) s).1).1

  close-stable :
      (s : State)
      → s.is_stable ≡ true
      → close g true s ≡ (
        err "close session",
        (direct_send g EndpointMessage.close (leave_stable g s.remote_peer.id (told s)).1).1,
      )
  unfolding close close_stable end_stable
  close-stable s e =
      let p = s.remote_peer.id in
      ap
        (λ (b : Bool).
          ((if b then close_stable g true p else close_unstable g true p) >> fail "close session")
            s)
        e
      ∙ ap
          (λ x.
            continue (continue x.0 (λ u. end_stable g true (is_direct s) p) x.1).0
              (λ u. fail "close session")
              (continue x.0 (λ u. end_stable g true (is_direct s) p) x.1).1)
          (when-ignore (not (is_direct s)) (relay_send g (SessionMessage.relay_close (my_id g)))
            (out_send g (ReceiveMessage.stable_leave p) s).1)

  drop_all :
      (s : State)
      → (b : Bool)
      → Map.get PeerId-discrete s.remote_peer.id
          ((if b
              then drop_tmp g s.remote_peer.id >> drop_peer g s.remote_peer.id
              else drop_tmp g s.remote_peer.id)
            s).1.buffer.tmps
        ≡ none
  unfolding drop_tmp drop_peer Buffer.remove_tmp
  drop_all s true = Map.get-remove_self PeerId-discrete s.remote_peer.id s.buffer.tmps
  drop_all s false = Map.get-remove_self PeerId-discrete s.remote_peer.id s.buffer.tmps

  drop_ok :
      (p : PeerId) (b : Bool) (s : State)
      → (if b then drop_tmp g p >> drop_peer g p else drop_tmp g p) s
        ≡ (ok tt, ((if b then drop_tmp g p >> drop_peer g p else drop_tmp g p) s).1)
  unfolding drop_tmp drop_peer
  drop_ok p true s = refl
  drop_ok p false s = refl

  close-unstable :
      (s : State)
      → s.is_stable ≡ false
      → close g true s ≡ (err "close session", (close_unstable g true s.remote_peer.id s).1)
  unfolding close close_unstable
  close-unstable s e =
      let p = s.remote_peer.id in
      ap
        (λ (b : Bool).
          ((if b then close_stable g true p else close_unstable g true p) >> fail "close session")
            s)
        e
      ∙ >>-ok (close_unstable g true p) (fail "close session") (drop_ok p (is_direct s) s)

  left_stables :
      (s : State)
      → Map.get PeerId-discrete s.remote_peer.id
          (direct_send g EndpointMessage.close
            (leave_stable g s.remote_peer.id (told s)).1).1.peers.stables
        ≡ none
  unfolding direct_send leave_stable PeerList.stable_leave
  left_stables s =
      let s' = (leave_stable g s.remote_peer.id (told s)).1 in
      ap (λ (h : Shared). Map.get PeerId-discrete s.remote_peer.id h.peers.stables)
        (direct_send_to-shared s'.endpoint EndpointMessage.close s')
      ∙ Map.get-remove_self PeerId-discrete s.remote_peer.id (told s).peers.stables

  left_tmps :
      (s : State)
      → Map.get PeerId-discrete s.remote_peer.id
          (close_unstable g true s.remote_peer.id s).1.buffer.tmps
        ≡ none
  unfolding close_unstable
  left_tmps s = drop_all s (is_direct s)

  close-IsGone :
      (s : State) → ((close g true s).0 ≡ err "close session") × IsGone s (close g true s).1
  close-IsGone s = elim (Bool-cases s.is_stable) [
    | inl e ↦ (
      ap (λ x. x.0) (close-stable s e),
      record {
        no_stable = λ _.
            ap (λ x. Map.get PeerId-discrete s.remote_peer.id x.1.peers.stables) (close-stable s e)
            ∙ left_stables s;
        no_tmp = λ f. absurd (ground arith);
      },
    )
    | inr e ↦ (
      ap (λ x. x.0) (close-unstable s e),
      record {
        no_stable = λ f. absurd (ground arith);
        no_tmp = λ _.
            ap (λ x. Map.get PeerId-discrete s.remote_peer.id x.1.buffer.tmps) (close-unstable s e)
            ∙ left_tmps s;
      },
    )
  ]

  -- However a session ran, its task ends with `close session`, and then its peer is not among the
  -- stable ones, if the session was stable, and not in the buffer, if it was not.
  pub listen_ends :
      (events : List FutureResult) (s : State)
      → ((listen g events s).0 ≡ err "close session")
        × IsGone (forever g events s).1 (listen g events s).1
  unfolding listen
  listen_ends events s = close-IsGone (forever g events s).1

  fail_err :
      (r : Result Unit) (s : State)
      → (e : String) × ((continue {B = Unit} r (λ u. fail "close session") s).0 ≡ err e)
  fail_err (ok u) s = ("close session", refl)
  fail_err (err e) s = (e, refl)

  close_err : (is_leave : Bool) (s : State) → (e : String) × ((close g is_leave s).0 ≡ err e)
  unfolding close
  close_err is_leave s =
      let p = s.remote_peer.id in
      let r = (if s.is_stable then close_stable g is_leave p else close_unstable g is_leave p) s in
      fail_err r.0 r.1

  stops :
      (r : Result Unit) (k : Act Unit) (s : State) (e : String)
      → r ≡ err e
      → continue r (λ u. k) s ≡ (r, s)
  stops r k s e h = rw (h)

  -- A session that is told to close does nothing that reaches it later: its loop ends with the
  -- error of `close`.
  pub forever_stops :
      (events : List FutureResult) (s : State)
      → forever g (out SessionMessage.close ∷ events) s ≡ close g false s
  unfolding forever handle handle_outside
  forever_stops events s =
      let (e, h) = close_err false s in
      stops (close g false s).0 (forever g events) (close g false s).1 e h
