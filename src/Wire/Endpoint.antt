-- ===== src/Wire/Endpoint.antt =====
-- src/transports.rs: `RemotePublic` and `EndpointMessage`, and their bytes.
use chamomile.Prelude.{
  ℕ, ◌+◌, ◌*◌, ◌%◌, ◌^◌, List, [], ◌∷◌, ◌++◌, ◌==◌, not, ltb, length, take, drop, byte_at,
  if◌then◌else◌,
}
use chamomile.Prelude.Bytes.{Bytes, to_be_bytes, from_be_bytes}
use chamomile.Prelude.Result.{Result, ok, err, reject, map_err, ◌>>=◌, ◌>>◌}
use chamomile.Types.Ids.{PeerId, id_from_bytes, id_to_bytes, peer_id_length}
use chamomile.Types.Peer.{Peer, peer_length, peer_from_bytes, peer_to_bytes}
use chamomile.Keys.Crypto.{Crypto}
use chamomile.Keys.Keypair.{Keypair, keypair_from_bytes, keypair_to_bytes}
use chamomile.Wire.Hole.{Hole, hole_from_byte, hole_to_byte, dht_from_bytes, dht_to_bytes}

pub record RemotePublic : Type 0 where
  pub key : Keypair
  pub peer : Peer
  pub dh : Bytes

pub data EndpointMessage : Type 0 where
  close : EndpointMessage
  handshake : RemotePublic → EndpointMessage
  dht : List Peer → EndpointMessage
  hole : Hole → EndpointMessage
  hole_connect : EndpointMessage
  core : Bytes → EndpointMessage
  relay_handshake : RemotePublic → PeerId → EndpointMessage
  relay_data : PeerId → PeerId → Bytes → EndpointMessage

unfoldable pub remote_to_bytes : RemotePublic → Bytes
remote_to_bytes r =
    let keypair_bytes = keypair_to_bytes r.key in
    peer_to_bytes r.peer
    ++ (to_be_bytes 2 (length keypair_bytes % 2 ^ 16) ++ (keypair_bytes ++ r.dh))

unfoldable pub endpoint_to_bytes : EndpointMessage → Bytes
endpoint_to_bytes close = 0 ∷ []
endpoint_to_bytes (handshake peer) =
    let peer_bytes = remote_to_bytes peer in
    1 ∷ (to_be_bytes 4 (length peer_bytes % 2 ^ 32) ++ peer_bytes)
endpoint_to_bytes (dht peers) = 2 ∷ dht_to_bytes peers
endpoint_to_bytes (hole h) = 3 ∷ hole_to_byte h ∷ []
endpoint_to_bytes hole_connect = 4 ∷ []
endpoint_to_bytes (core bytes) = 5 ∷ bytes
endpoint_to_bytes (relay_handshake p1_peer p2_id) =
    let peer_bytes = remote_to_bytes p1_peer in
    6 ∷ (to_be_bytes 4 (length peer_bytes % 2 ^ 32) ++ (peer_bytes ++ id_to_bytes p2_id))
endpoint_to_bytes (relay_data p1_id p2_id bytes) =
    7 ∷ (id_to_bytes p1_id ++ (id_to_bytes p2_id ++ bytes))

module _ (c : Crypto) where
  unfoldable pub remote_from_bytes : Bytes → Result RemotePublic
  remote_from_bytes bytes = do
    reject (ltb (length bytes) (peer_length + 2)) "Remote bytes failure."
    peer ← peer_from_bytes (take peer_length bytes)
    let bytes = drop peer_length bytes
    let keypair_len = from_be_bytes (take 2 bytes)
    let bytes = drop 2 bytes
    reject (ltb (length bytes) keypair_len) "Remote bytes failure."
    keypair ← keypair_from_bytes c (take keypair_len bytes)
    ok (record { key = keypair; peer = peer; dh = drop keypair_len bytes })

  -- A remote behind its length in four bytes, and the bytes behind it, of which there must be `more`.
  unfoldable pub read_remote : ℕ → Bytes → Result (RemotePublic × Bytes)
  read_remote more bytes = do
    reject (ltb (length bytes) 4) "EndpointMessage bytes failure."
    let peer_len = from_be_bytes (take 4 bytes)
    let bytes = drop 4 bytes
    reject (ltb (length bytes) (peer_len + more)) "EndpointMessage bytes failure."
    peer ← map_err (remote_from_bytes (take peer_len bytes)) "EndpointMessage bytes failure."
    ok (peer, drop peer_len bytes)

  unfoldable pub read_handshake : Bytes → Result EndpointMessage
  read_handshake bytes = do (peer, rest) ← read_remote 0 bytes; ok (handshake peer)

  unfoldable pub read_relay_handshake : Bytes → Result EndpointMessage
  read_relay_handshake bytes = do
    (peer, rest) ← read_remote peer_id_length bytes
    p2 ← id_from_bytes (take peer_id_length rest)
    ok (relay_handshake peer p2)

unfoldable pub read_dht : Bytes → Result EndpointMessage
read_dht bytes = do peers ← dht_from_bytes bytes; ok (dht peers)

unfoldable pub read_hole : Bytes → Result EndpointMessage
read_hole bytes = do
  reject (not (length bytes == 1)) "EndpointMessage bytes failure."
  h ← hole_from_byte (byte_at bytes 0)
  ok (hole h)

unfoldable pub read_relay_data : Bytes → Result EndpointMessage
read_relay_data bytes = do
  reject (ltb (length bytes) (peer_id_length * 2)) "EndpointMessage bytes failure."
  p1 ← id_from_bytes (take peer_id_length bytes)
  let bytes = drop peer_id_length bytes
  p2 ← id_from_bytes (take peer_id_length bytes)
  ok (relay_data p1 p2 (drop peer_id_length bytes))

module _ (c : Crypto) where
  -- the `match` on the first byte
  unfoldable pub read_message : ℕ → Bytes → Result EndpointMessage
  read_message t bytes =
      if t == 0
      then ok close
      else if t == 1
      then read_handshake c bytes
      else if t == 2
      then read_dht bytes
      else if t == 3
      then read_hole bytes
      else if t == 4
      then ok hole_connect
      else if t == 5
      then ok (core bytes)
      else if t == 6
      then read_relay_handshake c bytes
      else if t == 7
      then read_relay_data bytes
      else err "EndpointMessage bytes failure."

  unfoldable pub endpoint_from_bytes : Bytes → Result EndpointMessage
  endpoint_from_bytes bytes = do
    reject (ltb (length bytes) 1) "EndpointMessage bytes failure."
    read_message (byte_at bytes 0) (drop 1 bytes)
