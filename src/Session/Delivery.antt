-- ===== src/Session/Delivery.antt =====
-- src/session.rs: data from one session to the other end of its connection, and what confirms it.
use chamomile.Prelude.{
  ℕ, ◌<◌, ◌^◌, true, false, List, [], ◌∷◌, ◌++◌, ◌≡◌, refl, not, ◌==◌, some, sym, ap, ◌∙◌,
}
use chamomile.Prelude.Bytes.{Bytes}
use chamomile.Prelude.Result.{ok}
use chamomile.Types.Message.{ReceiveMessage, data_delivery}
use chamomile.Keys.Crypto.{Crypto, Documented}
use chamomile.Keys.Session.{encrypt}
use chamomile.Keys.Agreement.{SameChannel, decrypt-encrypt}
use chamomile.Wire.Core.{CoreData, core_to_bytes}
use chamomile.Wire.CoreTrip.{HasTid, core_from_bytes-core_to_bytes}
use chamomile.Wire.Endpoint.{EndpointMessage}
use chamomile.Session.State.{
  SessionMessage, direct, State, Global, Effect, ◌>>◌, out_send, outside, to_endpoint,
}
use chamomile.Session.Core.{
  is_direct_type, direct_send, direct_send_to, send_core_data, handle_core, handle_core_data,
  opened, parsed, confirm, handle_delivery, split,
}
use chamomile.Session.Steps.{>>-ok, when-true}
use chamomile.Session.Outside.{handle_outside}
use chamomile.Session.Endpoint.{handle_endpoint}

-- A node whose channels take all that is sent.
abbrev pub Accepts : Global → Type 0
Accepts g = (l : List Effect) (e : Effect) → g.accepts l e ≡ true

module _ (g : Global) (all : Accepts g) where
  pub send_core_data_lem :
      (m : CoreData) (s : State) (sender : ℕ)
      → s.endpoint ≡ direct sender
      → send_core_data g m s ≡ (
        ok tt,
        record s {
          log =
              s.log
              ++ to_endpoint sender
                  (EndpointMessage.core (encrypt g.crypto s.session_key (core_to_bytes m)))
                ∷ [];
        },
      )
  unfolding send_core_data is_direct_type direct_send direct_send_to
  send_core_data_lem m s sender e = rw (e, all)

-- core data as a session puts it on its connection
abbrev pub sealed_by : Global → State → CoreData → EndpointMessage
sealed_by g s m = EndpointMessage.core (encrypt g.crypto s.session_key (core_to_bytes m))

-- `s` with one more effect in its log
abbrev pub logged : State → Effect → State
logged s e = record s { log = s.log ++ e ∷ [] }

module _ (c : Crypto) (d : Documented c) where
  -- Two nodes with the crates' functions `c` hold a channel between two sessions.
  pub record IsConnected (g h : Global) (s t : State) : Type 0 where
    pub here : g.crypto ≡ c
    pub there : h.crypto ≡ c
    pub same : SameChannel c d s.session_key t.session_key

  -- Core data that a session encrypts, where the cipher does encrypt it and its id fits in a
  -- `u64`, is handled at the other end of the channel as that core data, if the crates do what
  -- they document.
  pub handle_endpoint-encrypt :
      (g h : Global) (s t : State) (m : CoreData) (sealed : Bytes)
      → IsConnected g h s t
      → HasTid m
      → c.aes_encrypt s.session_key.cipher s.session_key.nonce (core_to_bytes m) ≡ some sealed
      → handle_endpoint h
          (EndpointMessage.core (encrypt g.crypto s.session_key (core_to_bytes m)))
          t
        ≡ handle_core h m t
  unfolding handle_endpoint handle_core_data opened parsed
  handle_endpoint-encrypt g h s t m sealed k tid e = rw (
    k.here,
    k.there,
    decrypt-encrypt c d s.session_key t.session_key (core_to_bytes m) sealed k.same e,
    core_from_bytes-core_to_bytes m tid,
  )

  turned : (g h : Global) (s t : State) → IsConnected g h s t → IsConnected h g t s
  turned g h s t k = record {
    here = k.there;
    there = k.here;
    same = (sym k.same.0, sym k.same.1, k.same.3, k.same.2);
  }

  out_send_lem :
      (g : Global)
      → Accepts g
      → (msg : ReceiveMessage) (s : State)
      → out_send g msg s ≡ (ok tt, record s { log = s.log ++ outside msg ∷ [] })
  out_send_lem g all msg s = rw (all)

  payload_lem :
      (h : Global) (t : State) (tid j : ℕ) (bytes : Bytes)
      → Accepts h
      → t.endpoint ≡ direct j
      → (tid == 0) ≡ false
      → t.is_recv_data ≡ true
      → handle_core h (CoreData.payload tid bytes) t ≡ (
        ok tt,
        logged
            (logged t (outside (ReceiveMessage.payload t.remote_peer.id bytes)))
            (to_endpoint j (sealed_by h t (CoreData.delivery data_delivery tid (split h bytes)))),
      )
  unfolding handle_core confirm
  payload_lem h t tid j bytes all e n r =
      let answer : CoreData = CoreData.delivery data_delivery tid (split h bytes) in
      let t' : State = logged t (outside (ReceiveMessage.payload t.remote_peer.id bytes)) in
      when-true
        (out_send h (ReceiveMessage.payload t.remote_peer.id bytes)
          >> confirm h data_delivery tid bytes)
        t r
      ∙ >>-ok (out_send h (ReceiveMessage.payload t.remote_peer.id bytes))
          (confirm h data_delivery tid bytes)
          (out_send_lem h all (ReceiveMessage.payload t.remote_peer.id bytes) t)
      ∙ when-true (send_core_data h answer) t' (ap not n)
      ∙ send_core_data_lem h all answer t' j e

  confirmed_lem :
      (g : Global) (s : State) (tid : ℕ) (bytes : Bytes)
      → Accepts g
      → (tid == 0) ≡ false
      → s.is_recv_data ≡ true
      → handle_core g (CoreData.delivery data_delivery tid bytes) s
        ≡ (ok tt, logged s (outside (ReceiveMessage.delivery data_delivery tid true bytes)))
  unfolding handle_core handle_delivery
  confirmed_lem g s tid bytes all n r =
      let report : ReceiveMessage = ReceiveMessage.delivery data_delivery tid true bytes in
      when-true (handle_delivery g data_delivery tid bytes) s (ap not n)
      ∙ when-true (out_send g report) s r
      ∙ out_send_lem g all report s

  -- Data with a delivery id, a `u64` but 0, between two sessions that receive data and hold one
  -- channel, each over a direct connection: the sender puts it on its connection, the other end
  -- gives it to its node and answers with the start of the data, and on the answer the sender
  -- tells its own node that the data arrived. The crates do what they document, the channels take
  -- what is sent, and the cipher encrypts both messages.
  pub data_delivered :
      (g h : Global) (s t : State) (tid i j : ℕ) (bytes sealed answer : Bytes)
      → Accepts g
      → Accepts h
      → IsConnected g h s t
      → s.endpoint ≡ direct i
      → t.endpoint ≡ direct j
      → s.is_recv_data ≡ true
      → t.is_recv_data ≡ true
      → tid < 2 ^ 64
      → (tid == 0) ≡ false
      → c.aes_encrypt s.session_key.cipher s.session_key.nonce
          (core_to_bytes (CoreData.payload tid bytes))
        ≡ some sealed
      → c.aes_encrypt t.session_key.cipher t.session_key.nonce
          (core_to_bytes (CoreData.delivery data_delivery tid (split h bytes)))
        ≡ some answer
      → (sent : State) × (got : State) × (handle_outside g (SessionMessage.payload tid bytes) s
          ≡ (ok tt, sent))
        × (sent.log ≡ s.log ++ to_endpoint i (sealed_by g s (CoreData.payload tid bytes)) ∷ [])
        × (handle_endpoint h (sealed_by g s (CoreData.payload tid bytes)) t ≡ (ok tt, got))
        × (got.log
            ≡ (t.log ++ outside (ReceiveMessage.payload t.remote_peer.id bytes) ∷ [])
              ++ to_endpoint j (sealed_by h t (CoreData.delivery data_delivery tid (split h bytes)))
                ∷ [])
        × (handle_endpoint g
              (sealed_by h t (CoreData.delivery data_delivery tid (split h bytes)))
              sent
            ≡ (
              ok tt,
              logged sent
                  (outside (ReceiveMessage.delivery data_delivery tid true (split h bytes))),
            ))
  unfolding handle_outside
  data_delivered g h s t tid i j bytes sealed answer all_g all_h k ei ej rs rt small n e1 e2 = (
    logged s (to_endpoint i (sealed_by g s (CoreData.payload tid bytes))),
    logged (logged t (outside (ReceiveMessage.payload t.remote_peer.id bytes)))
        (to_endpoint j (sealed_by h t (CoreData.delivery data_delivery tid (split h bytes)))),
    send_core_data_lem g all_g (CoreData.payload tid bytes) s i ei,
    refl,
    handle_endpoint-encrypt g h s t (CoreData.payload tid bytes) sealed k small e1
        ∙ payload_lem h t tid j bytes all_h ej n rt,
    refl,
    handle_endpoint-encrypt h g t
          (logged s (to_endpoint i (sealed_by g s (CoreData.payload tid bytes))))
          (CoreData.delivery data_delivery tid (split h bytes)) answer
          (turned g h (logged s (to_endpoint i (sealed_by g s (CoreData.payload tid bytes)))) t
            (record { here = k.here; there = k.there; same = k.same }))
          small e2
        ∙ confirmed_lem g (logged s (to_endpoint i (sealed_by g s (CoreData.payload tid bytes))))
            tid (split h bytes) all_g n rs,
  )
