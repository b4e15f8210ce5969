-- ===== src/Transport/Framing.antt =====
-- src/transports/tcp.rs: the reading loop on what the writing loop wrote.
use mathlib.Core.List.{append_assoc, append-nil}
use chamomile.Prelude.{
  ℕ, zero, suc, ◌+◌, ◌-◌, ◌%◌, ◌^◌, ◌≤◌, ◌<◌, false, ◌==◌, Option, some, List, [], ◌∷◌, ◌++◌, map,
  length, take, ◌≡◌, refl, sym, ap, ◌∙◌, arith, length-append, take-append_of, drop-append_of,
  eq→==, All,
}
use chamomile.Prelude.Bytes.{Bytes, to_be_bytes, length-to_be_bytes, from_be_bytes-to_be_bytes}
use chamomile.Prelude.Result.{ok}
use chamomile.Keys.Crypto.{Crypto}
use chamomile.Wire.Endpoint.{RemotePublic, EndpointMessage, close, endpoint_to_bytes}
use chamomile.Wire.EndpointTrip.{IsMessage, endpoint_from_bytes-endpoint_to_bytes}
use chamomile.Types.Socket.{SocketAddr}
use chamomile.Keys.Session.{SessionKey}
use chamomile.Transport.Stream.{OutType, to_session, remote_of, hand_over, with_message, read_frame}
use chamomile.Transport.Tcp.{
  arrived, failed, Stream, unread, read, filled, read_body, length_of, End, left, after_body,
  after_head, read_loop, handshake_in, handshake_after, read_first, process_first, process_stream,
  frame, frames,
}

-- The bytes stand at the start of a stream, in pieces of any length; with the stream behind them.
pub data Carries : Bytes → Stream → Stream → Type 0 where
  last :
      (bytes more : Bytes) (s : Stream)
      → Carries bytes (arrived (bytes ++ more) ∷ s) (unread more s)
  piece :
      (bytes rest : Bytes) {s s' : Stream}
      → 0 < length rest
      → Carries rest s s'
      → Carries (bytes ++ rest) (arrived bytes ∷ s) s'

-- the length of a message as it stands before its bytes
abbrev pub head_of : EndpointMessage → Bytes
head_of m = to_be_bytes 4 (length (endpoint_to_bytes m) % 2 ^ 32)

-- What the writing loop wrote for the messages arrives, in pieces of any length, but that the four
-- bytes of each length come together.
pub data Arrives : List EndpointMessage → Stream → Type 0 where
  nothing : Arrives [] []
  next :
      (m : EndpointMessage) {msgs : List EndpointMessage} (more : Bytes) {s s' : Stream}
      → Carries (endpoint_to_bytes m) (unread more s) s'
      → Arrives msgs s'
      → Arrives (m ∷ msgs) (arrived (head_of m ++ more) ∷ s)

-- the bytes of a stream
unfoldable pub bytes_of : Stream → Bytes
bytes_of [] = []
bytes_of (failed ∷ s) = bytes_of s
bytes_of (arrived bytes ∷ s) = bytes ++ bytes_of s

pub bytes_of-unread : (more : Bytes) (s : Stream) → bytes_of (unread more s) ≡ more ++ bytes_of s
unfolding bytes_of unread
bytes_of-unread [] s = refl
bytes_of-unread (b ∷ more) s = refl

bytes_of-Carries :
    {bytes : Bytes} {s s' : Stream} → Carries bytes s s' → bytes_of s ≡ bytes ++ bytes_of s'
unfolding bytes_of
bytes_of-Carries (last bytes more s) =
    append_assoc bytes more (bytes_of s) ∙ ap (λ l. bytes ++ l) (sym (bytes_of-unread more s))
bytes_of-Carries (piece bytes rest {s} {s'} h c) =
    ap (λ l. bytes ++ l) (bytes_of-Carries c) ∙ sym (append_assoc bytes rest (bytes_of s'))

bytes_of-Arrives :
    {msgs : List EndpointMessage} {s : Stream} → Arrives msgs s → bytes_of s ≡ frames msgs
unfolding bytes_of frames frame
bytes_of-Arrives nothing = refl
bytes_of-Arrives (next m {msgs} more {s} {s'} c a) =
    append_assoc (head_of m) more (bytes_of s)
    ∙ ap (λ l. head_of m ++ l)
        (sym (bytes_of-unread more s)
          ∙ bytes_of-Carries c
          ∙ ap (λ l. endpoint_to_bytes m ++ l) (bytes_of-Arrives a))
    ∙ sym (append_assoc (head_of m) (endpoint_to_bytes m) (frames msgs))

pub take_ge : {A : Type 0} (n : ℕ) (xs : List A) → length xs ≤ n → take n xs ≡ xs
take_ge zero [] h = refl
take_ge (suc n) [] h = refl
take_ge zero (x ∷ xs) h = absurd (omega arith)
take_ge (suc n) (x ∷ xs) h = ap (λ l. x ∷ l) (take_ge n xs (omega arith))

pub less→== : (a b : ℕ) → a < b → (a == b) ≡ false
less→== a b h = ground arith

read_body-Carries :
    (len : ℕ) (got : Bytes) {bytes : Bytes} {s s' : Stream}
    → Carries bytes s s'
    → length got + length bytes ≡ len
    → read_body len got s ≡ filled (got ++ bytes) s'
unfolding read_body
read_body-Carries len got (last bytes more s) h =
    let room : length bytes ≡ len - length got = omega arith in
    rw (
      take-append_of (len - length got) bytes more room,
      drop-append_of (len - length got) bytes more room,
      eq→== (length (got ++ bytes)) len (length-append got bytes ∙ h),
    )
read_body-Carries len got (piece bytes rest {s} {s'} pos c) h =
    let total = length-append bytes rest in
    let now = length-append got bytes in
    rw
      (
        take_ge (len - length got) bytes (omega (arith, total)),
        less→== (length (got ++ bytes)) len (omega (arith, total, now)),
      )
      (read_body-Carries len (got ++ bytes) c (omega (arith, total, now))
        ∙ ap (λ l. filled l s') (append_assoc got bytes rest))

length_of-head :
    (m : EndpointMessage)
    → length (endpoint_to_bytes m) < 2 ^ 32
    → length_of (head_of m) ≡ length (endpoint_to_bytes m)
unfolding length_of
length_of-head m h =
    let len = length (endpoint_to_bytes m) in
    let small : len % 2 ^ 32 ≡ len = omega arith in
    rw (
      length-to_be_bytes 4 (len % 2 ^ 32),
      append-nil (head_of m),
      small,
      from_be_bytes-to_be_bytes 4 len (omega arith),
    )

module _ (c : Crypto) where
  after_head_ok :
      (head : Bytes) (chunks : Stream) (loop : Stream → List EndpointMessage × End)
      → 0 < length head
      → after_head c (ok head, chunks) loop
        ≡ after_body c (read_body (length_of head) [] chunks) loop
  unfolding after_head
  after_head_ok [] chunks loop h = absurd (omega arith)
  after_head_ok (b ∷ head) chunks loop h = refl

  read_loop-Arrives :
      (msgs : List EndpointMessage) (s : Stream) (fuel : ℕ)
      → Arrives msgs s
      → All (λ m. IsMessage c m × (length (endpoint_to_bytes m) < 2 ^ 32)) msgs
      → length msgs < fuel
      → read_loop c fuel s ≡ (msgs ++ close ∷ [], left)
  unfolding read_loop read after_head after_body read_frame with_message
  read_loop-Arrives msgs s zero a h f = absurd (omega arith)
  read_loop-Arrives [] s (suc fuel) nothing h f = refl
  read_loop-Arrives (m ∷ msgs) s (suc fuel) (next _ more {s = behind} {s'} b a) h f =
      let four = length-to_be_bytes 4 (length (endpoint_to_bytes m) % 2 ^ 32) in
      rw (
        take-append_of 4 (head_of m) more four,
        drop-append_of 4 (head_of m) more four,
        after_head_ok (head_of m) (unread more behind) (read_loop c fuel) (omega (arith, four)),
        length_of-head m h.0.1,
        read_body-Carries (length (endpoint_to_bytes m)) [] b (omega arith),
        read_loop-Arrives msgs s' fuel a h.1 (omega arith),
        endpoint_from_bytes-endpoint_to_bytes c m h.0.0,
      )

  read_first-Arrives :
      (r : RemotePublic) (msgs : List EndpointMessage) (s : Stream)
      → Arrives (EndpointMessage.handshake r ∷ msgs) s
      → IsMessage c (EndpointMessage.handshake r)
      → length (endpoint_to_bytes (EndpointMessage.handshake r)) < 2 ^ 32
      → (s' : Stream) × (read_first c s ≡ some (r, s')) × Arrives msgs s'
  unfolding read_first read handshake_after handshake_in remote_of
  read_first-Arrives r msgs s (next _ more {s = behind} {s'} b a) h small =
      let m = EndpointMessage.handshake r in
      let four = length-to_be_bytes 4 (length (endpoint_to_bytes m) % 2 ^ 32) in
      (
        s',
        rw (
          take-append_of 4 (head_of m) more four,
          drop-append_of 4 (head_of m) more four,
          eq→== (length (head_of m)) 4 four,
          length_of-head m small,
          read_body-Carries (length (endpoint_to_bytes m)) [] b (omega arith),
          endpoint_from_bytes-endpoint_to_bytes c m h,
        ),
        a,
      )

  -- What one end of a connection writes, its handshake and then messages, all within their bounds and
  -- of fewer than `2 ^ 32` bytes, and that arrives in pieces of any length, but with the four bytes
  -- of each length together, is given to the node at the other end as one connection of that remote
  -- and then message by message, as it was sent, with `Close` after the last.
  pub process_stream-frames :
      (r : RemotePublic) (msgs : List EndpointMessage) (s : Stream) (out_type : OutType)
      (addr : SocketAddr) (out_sender : ℕ) (has_session : Option SessionKey) (fuel : ℕ)
      → Arrives (EndpointMessage.handshake r ∷ msgs) s
      → All
          (λ m. IsMessage c m × (length (endpoint_to_bytes m) < 2 ^ 32))
          (EndpointMessage.handshake r ∷ msgs)
      → length msgs < fuel
      → (bytes_of s ≡ frames (EndpointMessage.handshake r ∷ msgs))
        × (process_stream c s out_type addr out_sender has_session fuel ≡ (
          hand_over out_type addr out_sender has_session r ∷ map to_session (msgs ++ close ∷ []),
          left,
        ))
  unfolding process_stream process_first
  process_stream-frames r msgs s out_type addr out_sender has_session fuel a h f =
      let (s', first, rest) = read_first-Arrives r msgs s a h.0.0 h.0.1 in
      (bytes_of-Arrives a, rw (first, read_loop-Arrives msgs s' fuel rest h.1 f))
