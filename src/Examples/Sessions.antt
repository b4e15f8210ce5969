-- ===== src/Examples/Sessions.antt =====
-- Two sessions that shake hands, send data and end.
use chamomile.Prelude.{ℕ, true, false, some, List, [], ◌∷◌, ◌++◌, ◌≡◌, refl, arith, replicate}
use chamomile.Prelude.Result.{ok, err}
use chamomile.Types.Ids.{PeerId, PeerId-discrete}
use chamomile.Types.Socket.{SocketAddr, SocketAddr-discrete}
use chamomile.Types.Message.{ReceiveMessage, data_delivery}
use chamomile.Keys.Keypair.{ed25519, public, keypair_sign}
use chamomile.Keys.Session.{
  SessionKey, Drawn, generate_session_key, session_key, complete, complete_session_key, out_bytes,
}
use chamomile.Keys.Agreement.{SameChannel, handshake_agrees}
use chamomile.Wire.Core.{CoreData, core_to_bytes}
use chamomile.Wire.Endpoint.{EndpointMessage}
use chamomile.Kad.Distance.{Key}
use chamomile.Kad.Double.{new_double}
use chamomile.Store.Buffer as Buffer
use chamomile.Store.PeerList.{PeerList}
use chamomile.Session.State.{
  SessionMessage, direct, new_session, State, Global, outside, to_endpoint,
}
use chamomile.Session.Core.{close, handle_core, split}
use chamomile.Session.Outside.{handle_outside}
use chamomile.Session.Endpoint.{handle_endpoint}
use chamomile.Session.Run.{FutureResult, out, heart_beat, robust, forever, listen}
use chamomile.Session.Delivery.{
  IsConnected, handle_endpoint-encrypt, data_delivered, logged, sealed_by,
}
use chamomile.Session.Closing.{IsGone, listen_ends, forever_stops}
use chamomile.Session.Invariant.{IsSession}
use chamomile.Session.Invariant.Loop.{forever-IsSession}
use chamomile.Examples.{toy, toy-Documented, pair, id_of, socket_of, peer_of}

abbrev drawn : ℕ → Drawn
drawn n = record { secret = n ∷ []; nonce = replicate 12 n }

-- the key that `generate_session_key` makes of a pair
abbrev pub fresh : ℕ → SessionKey
fresh n = record {
  key = ed25519;
  sk = n ∷ [];
  pk = replicate 32 1;
  sign = 7 ∷ 8 ∷ [];
  is_ok = false;
  cipher = replicate 32 0;
  nonce = replicate 12 n;
}

pub fresh_made : (n : ℕ) → generate_session_key toy (pair n) (drawn n) ≡ ok (fresh n)
unfolding generate_session_key session_key keypair_sign
fresh_made n = refl

handshake_agrees_example :
    (sb : SessionKey) × (sa : SessionKey) × (complete_session_key toy
        (pair 5)
        (drawn 5)
        (public (pair 4))
        (out_bytes (fresh 4))
      ≡ some sb)
    × (complete toy (fresh 4) (public (pair 5)).pk (out_bytes sb) ≡ (true, sa))
    × SameChannel toy toy-Documented sa sb
handshake_agrees_example =
    handshake_agrees toy toy-Documented (pair 4) (pair 5) (drawn 4) (drawn 5) (fresh 4) (fresh 5)
      refl refl refl refl refl refl refl (fresh_made 4) (fresh_made 5)

-- a key of a channel that was agreed on
abbrev agreed : ℕ → SessionKey
agreed n = record (fresh n) { cipher = replicate 32 3; nonce = replicate 12 4; is_ok = true }

agreed-SameChannel : (m n : ℕ) → SameChannel toy toy-Documented (agreed m) (agreed n)
agreed-SameChannel m n = (refl, refl, refl, refl)

-- every key at one distance
abbrev pub ids : Key PeerId
ids = record {
  eq = PeerId-discrete;
  key_length = 2;
  distance = λ k. true ∷ false ∷ [];
  closer = λ a b. false;
}

abbrev pub sockets : Key SocketAddr
sockets = record {
  eq = SocketAddr-discrete;
  key_length = 2;
  distance = λ k. true ∷ false ∷ [];
  closer = λ a b. false;
}

abbrev pub node_of : ℕ → Global
node_of n = record {
  peer = peer_of n;
  key = pair n;
  is_relay_data = true;
  delivery_length = 8;
  crypto = toy;
  ids = ids;
  sockets = sockets;
  accepts = λ l e. true;
  draw_value_key = λ l. 1;
  draw = λ l. drawn n;
  new_stream = λ l. 100;
  new_endpoint = λ l. 102;
  new_session_channel = λ l. 101;
}

abbrev pub peers_of : ℕ → PeerList
peers_of n = record {
  saved = [];
  allows = [];
  block_peers = [];
  block_addrs = [];
  dhts = new_double (id_of n) (socket_of n);
  stables = [];
}

-- a session of node `m` with node `n`
abbrev state_of : ℕ → ℕ → State
state_of m n = record {
  session = new_session (peer_of n) 20 21 (direct m) (agreed m) true;
  shared = record { buffer = Buffer.init; peers = peers_of m };
  log = [];
}

connected : IsConnected toy toy-Documented (node_of 4) (node_of 5) (state_of 4 5) (state_of 5 4)
unfolding new_session
connected = record { here = refl; there = refl; same = agreed-SameChannel 4 5 }

handle_endpoint-encrypt_example :
    handle_endpoint
      (node_of 5)
      (sealed_by (node_of 4) (state_of 4 5) (CoreData.stable_connect 6 (1 ∷ [])))
      (state_of 5 4)
    ≡ handle_core (node_of 5) (CoreData.stable_connect 6 (1 ∷ [])) (state_of 5 4)
unfolding new_session
handle_endpoint-encrypt_example =
    handle_endpoint-encrypt toy toy-Documented (node_of 4) (node_of 5) (state_of 4 5) (state_of 5 4)
      (CoreData.stable_connect 6 (1 ∷ [])) (9 ∷ core_to_bytes (CoreData.stable_connect 6 (1 ∷ [])))
      connected (omega arith) refl

-- the sender with its message, and the data that it gets back
abbrev data_sent : EndpointMessage
data_sent = sealed_by (node_of 4) (state_of 4 5) (CoreData.payload 6 (1 ∷ []))

abbrev data_answer : EndpointMessage
data_answer =
    sealed_by (node_of 5) (state_of 5 4)
      (CoreData.delivery data_delivery 6 (split (node_of 5) (1 ∷ [])))

data_delivered_example :
    (sent : State) × (got : State) × (handle_outside
        (node_of 4)
        (SessionMessage.payload 6 (1 ∷ []))
        (state_of 4 5)
      ≡ (ok tt, sent))
    × (sent.log ≡ to_endpoint 4 data_sent ∷ [])
    × (handle_endpoint (node_of 5) data_sent (state_of 5 4) ≡ (ok tt, got))
    × (got.log
        ≡ (outside (ReceiveMessage.payload (id_of 4) (1 ∷ [])) ∷ [])
          ++ to_endpoint 5 data_answer ∷ [])
    × (handle_endpoint (node_of 4) data_answer sent ≡ (
      ok tt,
      logged sent
          (outside (ReceiveMessage.delivery data_delivery 6 true (split (node_of 5) (1 ∷ [])))),
    ))
unfolding new_session
data_delivered_example =
    data_delivered toy toy-Documented (node_of 4) (node_of 5) (state_of 4 5) (state_of 5 4) 6 4 5
      (1 ∷ []) (9 ∷ core_to_bytes (CoreData.payload 6 (1 ∷ [])))
      (9 ∷ core_to_bytes (CoreData.delivery data_delivery 6 (split (node_of 5) (1 ∷ []))))
      (λ l e. refl) (λ l e. refl) connected refl refl refl refl (omega arith) refl refl refl

abbrev events : List FutureResult
events = heart_beat ∷ robust ∷ out SessionMessage.close ∷ heart_beat ∷ []

state-IsSession : IsSession (state_of 4 5).session
unfolding new_session
state-IsSession = record { beats = omega arith; receives = λ e. refl }

forever-IsSession_example : IsSession (forever (node_of 4) events (state_of 4 5)).1.session
forever-IsSession_example = forever-IsSession (node_of 4) events (state_of 4 5) state-IsSession

listen_ends_example :
    ((listen (node_of 4) events (state_of 4 5)).0 ≡ err "close session")
    × IsGone
        (forever (node_of 4) events (state_of 4 5)).1
        (listen (node_of 4) events (state_of 4 5)).1
listen_ends_example = listen_ends (node_of 4) events (state_of 4 5)

forever_stops_example :
    forever (node_of 4) (out SessionMessage.close ∷ events) (state_of 4 5)
    ≡ close (node_of 4) false (state_of 4 5)
forever_stops_example = forever_stops (node_of 4) events (state_of 4 5)
