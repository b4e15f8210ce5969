-- ===== src/Transport/Quic.antt =====
-- src/transports/quic.rs: the streams of a connection, one for each message.
use chamomile.Prelude.{ℕ, Bool, true, false, Option, none, some, List, [], ◌∷◌, map}
use chamomile.Prelude.Bytes.{Bytes}
use chamomile.Types.Socket.{SocketAddr}
use chamomile.Keys.Crypto.{Crypto}
use chamomile.Keys.Session.{SessionKey}
use chamomile.Wire.Endpoint.{RemotePublic, EndpointMessage, endpoint_to_bytes, endpoint_from_bytes}
use chamomile.Transport.Stream.{
  TransportSendMessage, connect, stable_connect, Channels, OutType, to_server, stable, Output,
  to_session, remote_of, hand_over, written, read_frame,
}

-- What `uni_streams.next()` gives, before its end: an error, or a stream with what
-- `read_to_end(SIZE_LIMIT)` makes of it.
pub data UniStream : Type 0 where
  refused : UniStream
  opened : Option Bytes → UniStream

module _ (c : Crypto) where
  -- the loop `b`, which does not tell the session that it ends
  unfoldable pub read_streams : List UniStream → List EndpointMessage
  unfolding read_frame
  read_streams [] = []
  read_streams (refused ∷ streams) = []
  read_streams (opened none ∷ streams) = read_streams streams
  read_streams (opened (some bytes) ∷ streams) = read_frame c bytes (read_streams streams)

  -- the handshake; no answer within the time is none
  unfoldable pub read_handshake : List UniStream → Option RemotePublic
  unfolding remote_of
  read_handshake [] = none
  read_handshake (refused ∷ streams) = none
  read_handshake (opened none ∷ streams) = none
  read_handshake (opened (some bytes) ∷ streams) = remote_of (endpoint_from_bytes c bytes)

  -- `process_stream` on the handshake and the streams behind it
  unfoldable pub process_remote :
      Option RemotePublic
      → List UniStream
      → OutType
      → SocketAddr
      → ℕ
      → Option SessionKey
      → List Output
  unfolding hand_over read_streams
  process_remote none streams out_type addr out_sender has_session = []
  process_remote (some remote_pk) streams out_type addr out_sender has_session =
      hand_over out_type addr out_sender has_session remote_pk
      ∷ map to_session (read_streams streams)

  unfoldable pub tail_of : List UniStream → List UniStream
  tail_of [] = []
  tail_of (stream ∷ streams) = streams

  unfoldable pub process_streams :
      List UniStream → OutType → SocketAddr → ℕ → Option SessionKey → List Output
  unfolding process_remote read_handshake tail_of
  process_streams streams out_type addr out_sender has_session =
      process_remote (read_handshake streams) (tail_of streams) out_type addr out_sender has_session

-- the loop `a`: the streams that it opens
unfoldable pub write_streams : List EndpointMessage → List Bytes
unfolding written
write_streams msgs = map endpoint_to_bytes (written msgs)

module _ (c : Crypto) (channels : Channels) where
  -- one connection that the endpoint accepts, where it listens
  unfoldable pub accept : Bool → SocketAddr → List UniStream → List Output
  unfolding process_streams
  accept true addr streams =
      process_streams c streams (to_server channels.self_sender channels.out_receiver) addr
        channels.out_sender none
  accept false addr streams = []

  -- One request that `run_self_recv` takes, on the streams of the connection, if there is one and it
  -- took the handshake: the stream that it writes first, and what it gives to the node.
  unfoldable pub dial : TransportSendMessage → Option (List UniStream) → List Bytes × List Output
  unfolding process_streams
  dial (connect addr remote_pk session_key) none = ([], [])
  dial (connect addr remote_pk session_key) (some streams) = (
    endpoint_to_bytes (EndpointMessage.handshake remote_pk) ∷ [],
    process_streams c streams (to_server channels.self_sender channels.out_receiver) addr
        channels.out_sender (some session_key),
  )
  dial (stable_connect out_sender self_receiver addr remote_pk) none =
      ([], to_session EndpointMessage.close ∷ [])
  dial (stable_connect out_sender self_receiver addr remote_pk) (some streams) = (
    endpoint_to_bytes (EndpointMessage.handshake remote_pk) ∷ [],
    process_streams c streams stable addr out_sender none,
  )
