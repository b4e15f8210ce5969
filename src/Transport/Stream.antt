-- ===== src/Transport/Stream.antt =====
-- src/transports/tcp.rs and src/transports/quic.rs: what both make of the first message of a connection
-- and of the messages that go out on it.
use chamomile.Prelude.{ℕ, Bool, true, false, Option, none, some, List, [], ◌∷◌, if◌then◌else◌}
use chamomile.Types.Socket.{SocketAddr}
use chamomile.Prelude.Bytes.{Bytes}
use chamomile.Prelude.Result.{Result, ok, err}
use chamomile.Keys.Crypto.{Crypto}
use chamomile.Keys.Session.{SessionKey}
use chamomile.Wire.Endpoint.{
  RemotePublic, EndpointMessage, close, handshake, dht, hole, hole_connect, core, relay_handshake,
  relay_data, endpoint_from_bytes,
}
use chamomile.Server.Incoming.{TransportRecvMessage}

-- A request of the node to connect to an address; for a stable connection with the sender of its
-- stream and the receiver of its endpoint.
pub data TransportSendMessage : Type 0 where
  connect : SocketAddr → RemotePublic → SessionKey → TransportSendMessage
  stable_connect : ℕ → ℕ → SocketAddr → RemotePublic → TransportSendMessage

-- the numbers of the channels of a new connection
pub record Channels : Type 0 where
  pub self_sender : ℕ
  pub out_sender : ℕ
  pub out_receiver : ℕ

-- `OutType`: a new connection of the server, with the sender and the receiver of its endpoint, or
-- one that a session waits for
pub data OutType : Type 0 where
  to_server : ℕ → ℕ → OutType
  stable : OutType

-- what a connection gives to the node
pub data Output : Type 0 where
  to_session : EndpointMessage → Output
  incoming : TransportRecvMessage → Output

-- `if let Ok(EndpointMessage::Handshake(remote_pk)) = …`
unfoldable pub remote_of : Result EndpointMessage → Option RemotePublic
remote_of (ok (handshake remote_pk)) = some remote_pk
remote_of r = none

-- what the remote of the first message is given to; `out_sender` is the channel of the stream
unfoldable pub hand_over : OutType → SocketAddr → ℕ → Option SessionKey → RemotePublic → Output
hand_over stable addr out_sender has_session remote_pk = to_session (handshake remote_pk)
hand_over (to_server self_sender out_receiver) addr out_sender has_session remote_pk =
    incoming (record {
      addr = addr;
      remote = remote_pk;
      is_self = has_session;
      stream_sender = out_sender;
      stream_receiver = out_receiver;
      endpoint_sender = self_sender;
    })

unfoldable pub is_close : EndpointMessage → Bool
is_close close = true
is_close (handshake r) = false
is_close (dht peers) = false
is_close (hole h) = false
is_close hole_connect = false
is_close (core bytes) = false
is_close (relay_handshake r to) = false
is_close (relay_data from to bytes) = false

-- the messages that the writing loop writes: those up to the first `Close`, with it
unfoldable pub written : List EndpointMessage → List EndpointMessage
unfolding is_close
written [] = []
written (m ∷ msgs) = let rest = written msgs in if is_close m then m ∷ [] else m ∷ rest

module _ (c : Crypto) where
  -- `if let Ok(msg) = EndpointMessage::from_bytes(…) { … }`, before what comes after it
  unfoldable pub with_message : Result EndpointMessage → List EndpointMessage → List EndpointMessage
  with_message (ok msg) msgs = msg ∷ msgs
  with_message (err e) msgs = msgs

  unfoldable pub read_frame : Bytes → List EndpointMessage → List EndpointMessage
  unfolding with_message
  read_frame bytes msgs = with_message (endpoint_from_bytes c bytes) msgs
