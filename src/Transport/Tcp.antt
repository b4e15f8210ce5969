-- ===== src/Transport/Tcp.antt =====
-- src/transports/tcp.rs: the frames of a connection, four bytes of length before each message.
use chamomile.Prelude.{
  ℕ, zero, suc, ◌-◌, ◌%◌, ◌^◌, ◌==◌, Option, none, some, List, [], ◌∷◌, ◌++◌, map, length, take,
  drop, replicate, if◌then◌else◌,
}
use chamomile.Prelude.Bytes.{Bytes, to_be_bytes, from_be_bytes}
use chamomile.Prelude.Result.{Result, ok, err}
use chamomile.Prelude.Maybe.{map_option}
use chamomile.Types.Socket.{SocketAddr}
use chamomile.Keys.Crypto.{Crypto}
use chamomile.Keys.Session.{SessionKey}
use chamomile.Wire.Endpoint.{
  RemotePublic, EndpointMessage, close, endpoint_to_bytes, endpoint_from_bytes,
}
use chamomile.Transport.Stream.{
  TransportSendMessage, connect, stable_connect, Channels, OutType, to_server, stable, Output,
  to_session, remote_of, hand_over, written, read_frame,
}

-- What the socket has for the reader, in order: bytes that arrive together, or an error. After the last,
-- the other end has closed the connection, and every read gives no bytes.
pub data Chunk : Type 0 where
  arrived : Bytes → Chunk
  failed : Chunk

abbrev pub Stream : Type 0
Stream = List Chunk

-- what is left once `n` bytes of a chunk were read
unfoldable pub unread : Bytes → Stream → Stream
unread [] chunks = chunks
unread (b ∷ bytes) chunks = arrived (b ∷ bytes) ∷ chunks

-- `reader.read(&mut buffer)` with a buffer of `n` bytes
unfoldable pub read : ℕ → Stream → Result Bytes × Stream
unfolding unread
read n [] = (ok [], [])
read n (failed ∷ chunks) = (err "read failure.", chunks)
read n (arrived bytes ∷ chunks) = (ok (take n bytes), unread (drop n bytes) chunks)

-- How the loop over the body of a frame ends: with its bytes, with an error of the socket, or never,
-- where the connection is closed before the body is there.
pub data Body : Type 0 where
  filled : Bytes → Stream → Body
  broken : Stream → Body
  stuck : Body

-- The loop over the body of `len` bytes, of which `got` were received. No read gives more than the
-- buffer has room for, so that `received > len` is never true.
unfoldable pub read_body : ℕ → Bytes → Stream → Body
unfolding unread
read_body len got [] = if length got == len then filled got [] else stuck
read_body len got (failed ∷ chunks) = broken chunks
read_body len got (arrived bytes ∷ chunks) =
    let room = len - length got in
    let now = got ++ take room bytes in
    let more = read_body len now chunks in
    if length now == len then filled now (unread (drop room bytes) chunks) else more

-- `u32::from_be_bytes(read_len)` once `head` was read into the zeros of `read_len`
unfoldable pub length_of : Bytes → ℕ
length_of head = from_be_bytes (head ++ replicate (4 - length head) 0)

-- how the reading loop ends: it is left, it spins, or the fuel is out
pub data End : Type 0 where
  left spinning out_of_fuel : End

module _ (c : Crypto) where
  -- one round after its length was read, on the rounds that come after it
  unfoldable pub after_body :
      Body → (Stream → List EndpointMessage × End) → List EndpointMessage × End
  unfolding read_frame
  after_body stuck next = ([], spinning)
  after_body (broken chunks) next = next chunks
  after_body (filled bytes chunks) next =
      let (msgs, how) = next chunks in (read_frame c bytes msgs, how)

  unfoldable pub after_head :
      Result Bytes × Stream → (Stream → List EndpointMessage × End) → List EndpointMessage × End
  unfolding after_body read_body length_of
  after_head (err e, chunks) next = (close ∷ [], left)
  after_head (ok [], chunks) next = (close ∷ [], left)
  after_head (ok (b ∷ head), chunks) next =
      after_body (read_body (length_of (b ∷ head)) [] chunks) next

  -- the loop `b`: what is sent to the session, and how the loop ends
  unfoldable pub read_loop : ℕ → Stream → List EndpointMessage × End
  unfolding after_head read
  read_loop zero chunks = ([], out_of_fuel)
  read_loop (suc fuel) chunks = after_head (read 4 chunks) (read_loop fuel)

  -- the handshake, on what the first reads gave; no answer within the time is none
  unfoldable pub handshake_in : Body → Option (RemotePublic × Stream)
  unfolding remote_of
  handshake_in stuck = none
  handshake_in (broken chunks) = none
  handshake_in (filled bytes chunks) =
      map_option (λ r. (r, chunks)) (remote_of (endpoint_from_bytes c bytes))

  unfoldable pub handshake_after : Result Bytes × Stream → Option (RemotePublic × Stream)
  unfolding handshake_in read_body length_of
  handshake_after (err e, chunks) = none
  handshake_after (ok head, chunks) =
      if length head == 4 then handshake_in (read_body (length_of head) [] chunks) else none

  unfoldable pub read_first : Stream → Option (RemotePublic × Stream)
  unfolding handshake_after read
  read_first chunks = handshake_after (read 4 chunks)

  -- `process_stream`, what it gives to the node: nothing without a handshake
  unfoldable pub process_first :
      Option (RemotePublic × Stream)
      → OutType
      → SocketAddr
      → ℕ
      → Option SessionKey
      → ℕ
      → List Output × End
  unfolding hand_over read_loop
  process_first none out_type addr out_sender has_session fuel = ([], left)
  process_first (some (remote_pk, chunks)) out_type addr out_sender has_session fuel =
      let (msgs, how) = read_loop fuel chunks in
      (hand_over out_type addr out_sender has_session remote_pk ∷ map to_session msgs, how)

  unfoldable pub process_stream :
      Stream → OutType → SocketAddr → ℕ → Option SessionKey → ℕ → List Output × End
  unfolding process_first read_first
  process_stream chunks out_type addr out_sender has_session fuel =
      process_first (read_first chunks) out_type addr out_sender has_session fuel

-- the length of a message as a `u32`, and its bytes
unfoldable pub frame : EndpointMessage → Bytes
frame m = let bytes = endpoint_to_bytes m in to_be_bytes 4 (length bytes % 2 ^ 32) ++ bytes

unfoldable pub frames : List EndpointMessage → Bytes
unfolding frame
frames [] = []
frames (m ∷ msgs) = frame m ++ frames msgs

-- the loop `a`: what it writes
unfoldable pub write_loop : List EndpointMessage → Bytes
unfolding frames written
write_loop msgs = frames (written msgs)

module _ (c : Crypto) (channels : Channels) (fuel : ℕ) where
  -- one connection that `run_listen` accepts
  unfoldable pub accept : SocketAddr → Stream → List Output × End
  unfolding process_stream
  accept addr chunks =
      process_stream c chunks (to_server channels.self_sender channels.out_receiver) addr
        channels.out_sender none fuel

  -- One request that `run_self_recv` takes, on the stream of the connection, if there is one: what it
  -- writes first, and what it gives to the node.
  unfoldable pub dial : TransportSendMessage → Option Stream → Bytes × (List Output × End)
  unfolding process_stream frame
  dial (connect addr remote_pk session_key) none = ([], ([], left))
  dial (connect addr remote_pk session_key) (some chunks) = (
    frame (EndpointMessage.handshake remote_pk),
    process_stream c chunks (to_server channels.self_sender channels.out_receiver) addr
        channels.out_sender (some session_key) fuel,
  )
  dial (stable_connect out_sender self_receiver addr remote_pk) none =
      ([], (to_session close ∷ [], left))
  dial (stable_connect out_sender self_receiver addr remote_pk) (some chunks) = (
    frame (EndpointMessage.handshake remote_pk),
    process_stream c chunks stable addr out_sender none fuel,
  )
