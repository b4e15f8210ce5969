-- ===== src/Transport/Ending.antt =====
-- src/transports/tcp.rs: how the reading loop ends.
use chamomile.Prelude.{
  ℕ, zero, suc, ◌+◌, ◌-◌, ◌≤◌, ◌<◌, Bool, true, false, ◌==◌, List, [], ◌∷◌, ◌++◌, length, take,
  drop, ◌≡◌, ◌≢◌, ap, arith, length-append, length-drop, All, take-append_of, drop-append_of,
  if◌then◌else◌, if-false,
}
use chamomile.Prelude.Bytes.{Bytes}
use chamomile.Prelude.Result.{ok}
use chamomile.Keys.Crypto.{Crypto}
use chamomile.Wire.Endpoint.{EndpointMessage}
use chamomile.Transport.Framing.{bytes_of, bytes_of-unread, take_ge, less→==}
use chamomile.Transport.Tcp.{
  Chunk, arrived, failed, Stream, unread, read, Body, filled, broken, stuck, read_body, length_of,
  End, spinning, out_of_fuel, after_body, after_head, read_loop,
}

-- the bytes and the errors that are still to be read, with the number of pieces
unfoldable pub size : Stream → ℕ
size [] = 0
size (failed ∷ s) = 1 + size s
size (arrived bytes ∷ s) = 1 + length bytes + size s

-- the most that is left after a body
unfoldable body_size : Body → ℕ
body_size stuck = 0
body_size (broken s) = size s
body_size (filled bytes s) = size s

size-unread : (bytes : Bytes) (s : Stream) → size (unread bytes s) ≤ 1 + length bytes + size s
unfolding size unread
size-unread [] s = omega arith
size-unread (b ∷ bytes) s = omega arith

body_size-ite :
    (b : Bool) (x y : Body) (n : ℕ)
    → body_size x ≤ n
    → body_size y ≤ n
    → body_size (if b then x else y) ≤ n
body_size-ite true x y n hx hy = hx
body_size-ite false x y n hx hy = hy

drop_le : {A : Type 0} (n : ℕ) (xs : List A) → length (drop n xs) ≤ length xs
drop_le n xs = omega (arith, length-drop n xs)

read_body-size : (len : ℕ) (got : Bytes) (s : Stream) → body_size (read_body len got s) ≤ size s
unfolding read_body body_size size
read_body-size len got [] =
    body_size-ite (length got == len) (filled got []) stuck 0 (omega arith) (omega arith)
read_body-size len got (failed ∷ s) = omega arith
read_body-size len got (arrived bytes ∷ s) =
    let room = len - length got in
    let now = got ++ take room bytes in
    body_size-ite (length now == len) (filled now (unread (drop room bytes) s))
      (read_body len now s) (1 + length bytes + size s)
      (omega (arith, size-unread (drop room bytes) s, drop_le room bytes))
      (omega (arith, read_body-size len now s))

-- a piece that is no error
abbrev pub IsArrived : Chunk → Type 0
IsArrived (arrived bytes) = Unit
IsArrived failed = ⊥

unread-fine : (more : Bytes) (s : Stream) → All IsArrived s → All IsArrived (unread more s)
unfolding unread
unread-fine [] s h = h
unread-fine (b ∷ more) s h = (tt, h)

read_body-stuck :
    (len : ℕ) (got : Bytes) (s : Stream)
    → All IsArrived s
    → length got + length (bytes_of s) < len
    → read_body len got s ≡ stuck
unfolding read_body bytes_of
read_body-stuck len got [] h cut =
    if-false (filled got []) stuck (less→== (length got) len (omega arith))
read_body-stuck len got (failed ∷ s) h cut = absurd h.0
read_body-stuck len got (arrived bytes ∷ s) h cut =
    let both = length-append bytes (bytes_of s) in
    let now = length-append got bytes in
    rw
      (
        take_ge (len - length got) bytes (omega (arith, both)),
        less→== (length (got ++ bytes)) len (omega (arith, both, now)),
      )
      (read_body-stuck len (got ++ bytes) s h.1 (omega (arith, both, now)))

module _ (c : Crypto) where
  after_body-ends :
      (b : Body) (n : ℕ) (loop : Stream → List EndpointMessage × End)
      → body_size b < n
      → ((s : Stream) → size s < n → (loop s).1 ≢ out_of_fuel)
      → (after_body c b loop).1 ≢ out_of_fuel
  unfolding after_body body_size
  after_body-ends stuck n loop h ends = λ e. ground arith
  after_body-ends (broken s) n loop h ends = ends s h
  after_body-ends (filled bytes s) n loop h ends = ends s h

  -- On every stream the reading loop ends or spins within as many rounds as there are bytes, errors and
  -- pieces to read, and one more.
  pub read_loop_ends :
      (s : Stream) (fuel : ℕ) → size s < fuel → (read_loop c fuel s).1 ≢ out_of_fuel
  unfolding read_loop read after_head size
  read_loop_ends s zero h = absurd (omega arith)
  read_loop_ends [] (suc fuel) h = λ e. ground arith
  read_loop_ends (failed ∷ s) (suc fuel) h = λ e. ground arith
  read_loop_ends (arrived [] ∷ s) (suc fuel) h = λ e. ground arith
  read_loop_ends (arrived (b ∷ bytes) ∷ s) (suc fuel) h =
      let rest = unread (drop 3 bytes) s in
      let body = read_body (length_of (b ∷ take 3 bytes)) [] rest in
      after_body-ends body fuel (read_loop c fuel)
        (omega (
          arith,
          size-unread (drop 3 bytes) s,
          drop_le 3 bytes,
          read_body-size (length_of (b ∷ take 3 bytes)) [] rest,
        ))
        (λ s' small. read_loop_ends s' fuel small)

  after_head_full :
      (head : Bytes) (s : Stream) (loop : Stream → List EndpointMessage × End)
      → length head ≡ 4
      → read_body (length_of head) [] s ≡ stuck
      → after_head c (ok head, s) loop ≡ ([], spinning)
  unfolding after_head after_body
  after_head_full [] s loop four e = absurd (omega arith)
  after_head_full (b ∷ head) s loop four e = ap (λ x. after_body c x loop) e

  -- If the other end closes the connection while the body of a frame is on its way, so that fewer
  -- bytes come than the length before them says, and no error of the socket, then the reading loop
  -- gives the session nothing any more, `Close` included, and spins.
  pub read_loop_spins :
      (head more : Bytes) (s : Stream) (fuel : ℕ)
      → length head ≡ 4
      → All IsArrived s
      → length more + length (bytes_of s) < length_of head
      → read_loop c (suc fuel) (arrived (head ++ more) ∷ s) ≡ ([], spinning)
  unfolding read_loop read
  read_loop_spins head more s fuel four fine cut = rw (
    take-append_of 4 head more four,
    drop-append_of 4 head more four,
    after_head_full head (unread more s) (read_loop c fuel) four (
        read_body-stuck (length_of head) [] (unread more s) (unread-fine more s fine)
          (omega (arith, ap length (bytes_of-unread more s), length-append more (bytes_of s)))),
  )
