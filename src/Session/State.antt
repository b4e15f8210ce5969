-- ===== src/Session/State.antt =====
-- src/session.rs: the state of a session, its messages, and its actions. An action returns a result
-- and the state; what it sends is appended to a log, whether the channel took it or not. A channel
-- end is a number.
use chamomile.Prelude.{ℕ, Bool, false, Option, List, [], ◌∷◌, ◌++◌, if◌then◌else◌, String}
use chamomile.Prelude.Bytes.{Bytes}
use chamomile.Prelude.Result.{Result, ok, err}
use chamomile.Prelude.Map.{Map}
use chamomile.Prelude.Maybe.{map_option}
pub use chamomile.Prelude.Act.{continue, ◌>>=◌, ◌>>◌, pure, fail, when, ignore, gets}
use chamomile.Prelude.Act.{ActOn}
use chamomile.Types.Ids.{PeerId, TransportType}
use chamomile.Types.Socket.{SocketAddr}
use chamomile.Types.Peer.{Peer}
use chamomile.Types.Message.{ReceiveMessage, StateResponse}
use chamomile.Keys.Crypto.{Crypto}
use chamomile.Keys.Keypair.{Keypair, public}
use chamomile.Keys.Session.{
  SessionKey, Drawn, generate_session_key, complete_session_key, out_bytes,
}
use chamomile.Kad.Distance.{Key}
use chamomile.Store.Global.{Shared}
use chamomile.Wire.Endpoint.{RemotePublic, EndpointMessage}

pub data SessionMessage : Type 0 where
  payload : ℕ → Bytes → SessionMessage
  stable_connect : ℕ → Bytes → SessionMessage
  stable_result : ℕ → Bool → Bool → Bytes → SessionMessage
  relay_data : PeerId → PeerId → Bytes → SessionMessage
  relay_connect : RemotePublic → PeerId → SessionMessage
  relay_result : RemotePublic → ℕ → SessionMessage
  relay_close : PeerId → SessionMessage
  close : SessionMessage
  direct_incoming : Peer → ℕ → ℕ → ℕ → SessionMessage

pub data ConnectType : Type 0 where
  direct : ℕ → ConnectType
  relay : ℕ → ConnectType

pub record Session : Type 0 where
  pub remote_peer : Peer
  pub session_sender : ℕ
  pub stream_receiver : ℕ
  pub endpoint : ConnectType
  pub session_key : SessionKey
  pub is_recv_data : Bool
  pub is_stable : Bool
  pub heartbeat : ℕ
  pub relay_sessions : Map PeerId ℕ

-- `Session::new`
unfoldable pub new_session : Peer → ℕ → ℕ → ConnectType → SessionKey → Bool → Session
new_session remote_peer session_sender stream_receiver endpoint session_key is_recv_data = record {
  remote_peer = remote_peer;
  session_sender = session_sender;
  stream_receiver = stream_receiver;
  endpoint = endpoint;
  session_key = session_key;
  is_recv_data = is_recv_data;
  is_stable = false;
  heartbeat = 0;
  relay_sessions = [];
}

-- What a session or the server does to the world outside it.
pub data Effect : Type 0 where
  outside : ReceiveMessage → Effect
  to_session : ℕ → SessionMessage → Effect
  to_endpoint : ℕ → EndpointMessage → Effect
  to_transport : TransportType → SocketAddr → RemotePublic → SessionKey → Effect
  spawn : Session → ℕ → Effect
  -- `TransportSendMessage::StableConnect`, with the channels of the stream and of the endpoint
  stable_transport : TransportType → ℕ → ℕ → SocketAddr → RemotePublic → Effect
  -- the answer to a question for the state of the network
  answer : ℕ → StateResponse → Effect
  -- a task that runs `direct_stable`, and one that runs `relay_stable`
  direct_task : ℕ → Bytes → Peer → Effect
  relay_task : ℕ → Bytes → Peer → ℕ → Effect

pub record State : Type 0 where
  pub session : Session
  pub open session use *
  pub shared : Shared
  pub open shared use *
  pub log : List Effect

-- The fields of `Global` that do not change, the crates, and the choices of the environment, each of
-- which may depend on all that was sent before.
pub record Global : Type 0 where
  pub peer : Peer
  pub key : Keypair
  pub is_relay_data : Bool
  pub delivery_length : ℕ
  pub crypto : Crypto
  pub ids : Key PeerId
  pub sockets : Key SocketAddr
  -- whether the channel takes what is sent
  pub accepts : List Effect → Effect → Bool
  -- the key that `DoubleKadTree::add` draws, and what one session key draws
  pub draw_value_key : List Effect → ℕ
  pub draw : List Effect → Drawn
  -- the numbers of a new stream channel, endpoint channel and session channel
  pub new_stream : List Effect → ℕ
  pub new_endpoint : List Effect → ℕ
  pub new_session_channel : List Effect → ℕ

abbrev pub Act : Type 0 → Type 0
Act A = ActOn State A

-- a method of the shared state
abbrev pub on_shared : {A : Type 0} → (Shared → Result A × Shared) → Act A
on_shared f s = let (r, shared) = f s.shared in (r, record s { shared = shared })

abbrev pub modify_shared : (Shared → Shared) → Act Unit
modify_shared f s = (ok tt, record s { shared = f s.shared })

abbrev pub modify : (Session → Session) → Act Unit
modify f s = (ok tt, record s { session = f s.session })

module _ (g : Global) where
  -- `sender.send(msg).await.map_err(…)`
  abbrev pub send : Effect → String → Act Unit
  send e missing s =
      (if g.accepts s.log e then ok tt else err missing, record s { log = s.log ++ e ∷ [] })

  abbrev pub out_send : ReceiveMessage → Act Unit
  out_send msg = send (outside msg) "Outside missing"

  -- a session key with what its remote gets: the public key, the peer, and the bytes of the key
  unfoldable pub with_remote : SessionKey → SessionKey × RemotePublic
  with_remote k = (k, record { key = public g.key; peer = g.peer; dh = out_bytes k })

  -- one round of `Global::generate_remote`, which tries again where no key can be made
  unfoldable pub generate_remote : Drawn → Result (SessionKey × RemotePublic)
  unfolding with_remote
  generate_remote drawn = elim (generate_session_key g.crypto g.key drawn) [
    | ok k ↦ ok (with_remote k)
    | err e ↦ err e
  ]

  unfoldable pub complete_remote : Keypair → Bytes → Drawn → Option (SessionKey × RemotePublic)
  unfolding with_remote
  complete_remote remote_key dh_bytes drawn =
      map_option with_remote (complete_session_key g.crypto g.key drawn remote_key dh_bytes)
