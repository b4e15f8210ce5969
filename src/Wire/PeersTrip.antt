-- ===== src/Wire/PeersTrip.antt =====
-- src/hole_punching.rs: lists of peers and `Hole` to bytes and back.
use mathlib.Core.List.{append_assoc, append-nil}
use native.Mathlib.Nat.{mod-eq_of_lt}
use chamomile.Prelude.{
  ◌*◌, ◌^◌, ◌<◌, List, [], ◌∷◌, ◌++◌, ◌≡◌, refl, subst, arith, All, ltb-false, length,
  length-append, take-append_of, drop-append_of,
}
use chamomile.Prelude.Bytes.{Bytes, to_le_bytes, length-to_le_bytes, from_le_bytes-to_le_bytes}
use chamomile.Prelude.Result.{ok}
use chamomile.Types.Peer.{Peer, IsPeer, peer_to_bytes}
use chamomile.Types.RoundTrip.{IsPlain, length-peer_to_bytes, peer_from_bytes-peer_to_bytes_plain}
use chamomile.Wire.Hole.{
  Hole, stun_one, stun_two, help, hole_from_byte, hole_to_byte, read_peers, write_peers,
  dht_from_bytes, dht_to_bytes,
}

-- A peer that comes back from its bytes.
abbrev pub IsPlainPeer : Peer → Type 0
IsPlainPeer p = IsPeer p × IsPlain p.socket.ip

-- A hole message comes back from its byte.
pub hole_from_byte-hole_to_byte : (h : Hole) → hole_from_byte (hole_to_byte h) ≡ ok h
unfolding hole_from_byte hole_to_byte
hole_from_byte-hole_to_byte stun_one = refl
hole_from_byte-hole_to_byte stun_two = refl
hole_from_byte-hole_to_byte help = refl

length-write_peers :
    (peers : List Peer) → All IsPlainPeer peers → length (write_peers peers) ≡ length peers * 52
unfolding write_peers
length-write_peers [] h = omega arith
length-write_peers (p ∷ peers) h = omega (
  arith,
  length-append (peer_to_bytes p) (write_peers peers),
  length-peer_to_bytes p h.0.0,
  length-write_peers peers h.1,
)

read_peers-write_peers :
    (peers : List Peer) (rest : Bytes)
    → All IsPlainPeer peers
    → read_peers (length peers) (write_peers peers ++ rest) ≡ ok peers
unfolding read_peers write_peers
read_peers-write_peers [] rest h = refl
read_peers-write_peers (p ∷ peers) rest h =
    let n = length-peer_to_bytes p h.0.0 in
    rw (
      append_assoc (peer_to_bytes p) (write_peers peers) rest,
      take-append_of 52 (peer_to_bytes p) (write_peers peers ++ rest) n,
      peer_from_bytes-peer_to_bytes_plain p h.0.0 h.0.1,
      drop-append_of 52 (peer_to_bytes p) (write_peers peers ++ rest) n,
      read_peers-write_peers peers rest h.1,
    )

-- A list of fewer than 2^32 peers, whose fields have the widths of their types and whose addresses
-- are plain, comes back from its bytes.
pub dht_from_bytes-dht_to_bytes :
    (peers : List Peer)
    → All IsPlainPeer peers
    → length peers < 256 ^ 4
    → dht_from_bytes (dht_to_bytes peers) ≡ ok peers
unfolding dht_from_bytes dht_to_bytes
dht_from_bytes-dht_to_bytes peers h small =
    let n = length peers in
    let head = to_le_bytes 4 n in
    let body = write_peers peers in
    rw
      (
        mod-eq_of_lt {m = 2 ^ 32} small,
        ltb-false (length (head ++ body)) 4
            (omega (arith, length-append head body, length-to_le_bytes 4 n)),
        take-append_of 4 head body (length-to_le_bytes 4 n),
        drop-append_of 4 head body (length-to_le_bytes 4 n),
        from_le_bytes-to_le_bytes 4 n small,
        ltb-false (length body) (n * 52) (omega (arith, length-write_peers peers h)),
      )
      (subst (λ x. read_peers n x ≡ ok peers) (append-nil body) (read_peers-write_peers peers [] h))
