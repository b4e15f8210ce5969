-- ===== src/Wire/Hole.antt =====
-- src/hole_punching.rs: `Hole`, `DHT` and `nat`.
use chamomile.Prelude.{
  ℕ, zero, suc, ◌*◌, ◌%◌, ◌^◌, List, [], ◌∷◌, ◌++◌, ◌==◌, ltb, length, take, drop, if◌then◌else◌,
}
use chamomile.Prelude.Bytes.{Bytes, to_le_bytes, from_le_bytes}
use chamomile.Prelude.Result.{Result, ok, err, reject, ◌>>=◌, ◌>>◌}
use chamomile.Types.Ids.{quic, tcp, rtp, udt, TransportType}
use chamomile.Types.Socket.{SocketAddr}
use chamomile.Types.Peer.{Peer, peer_length, peer_from_bytes, peer_to_bytes}

pub data Hole : Type 0 where
  stun_one stun_two help : Hole

unfoldable pub hole_from_byte : ℕ → Result Hole
hole_from_byte byte =
    if byte == 0
    then ok help
    else if byte == 1
    then ok stun_one
    else if byte == 2
    then ok stun_two
    else err "Hole bytes failure."

unfoldable pub hole_to_byte : Hole → ℕ
hole_to_byte help = 0
hole_to_byte stun_one = 1
hole_to_byte stun_two = 2

-- the loop over `len` slices of 52 bytes
unfoldable pub read_peers : ℕ → Bytes → Result (List Peer)
read_peers zero raw = ok []
read_peers (suc len) raw = do
  peer ← peer_from_bytes (take peer_length raw)
  peers ← read_peers len (drop peer_length raw)
  ok (peer ∷ peers)

-- `DHT::from_bytes`
unfoldable pub dht_from_bytes : Bytes → Result (List Peer)
dht_from_bytes bytes = do
  reject (ltb (length bytes) 4) "DHT bytes failure."
  let len = from_le_bytes (take 4 bytes)
  let raw_bytes = drop 4 bytes
  reject (ltb (length raw_bytes) (len * peer_length)) "DHT bytes failure."
  read_peers len raw_bytes

unfoldable pub write_peers : List Peer → Bytes
write_peers [] = []
write_peers (p ∷ peers) = peer_to_bytes p ++ write_peers peers

-- `DHT::to_bytes`, with the length cast to `u32`
unfoldable pub dht_to_bytes : List Peer → Bytes
dht_to_bytes peers = to_le_bytes 4 (length peers % 2 ^ 32) ++ write_peers peers

-- The address that a peer of a transport is reached under, from the one that it was seen at.
unfoldable pub seen_at : TransportType → SocketAddr → ℕ → SocketAddr
seen_at tcp remote_addr port = record remote_addr { port = port }
seen_at quic remote_addr port = remote_addr
seen_at rtp remote_addr port = remote_addr
seen_at udt remote_addr port = remote_addr

unfoldable pub nat : SocketAddr → Peer → Peer
unfolding seen_at
nat remote_addr local = record local {
  is_pub = remote_addr.port == local.socket.port;
  socket = seen_at local.transport remote_addr local.socket.port;
}
