-- ===== src/Examples/Coding.antt =====
-- Messages, peers and key pairs as bytes, and what waits in a buffer.
use chamomile.Prelude.{
  ℕ, zero, suc, ◌<◌, ◌^◌, length, true, [], ◌∷◌, ◌++◌, ◌≡◌, ◌≢◌, refl, arith, replicate, All,
}
use chamomile.Prelude.Bytes.{Bytes, IsByte, to_be_bytes, to_le_bytes}
use chamomile.Prelude.Result.{ok}
use chamomile.Types.Ids.{IsPeerId, id_to_bytes}
use chamomile.Types.Socket.{v4, v6, IsSocketAddr, socket_addr_to_bytes, ip_octets, embeds_v4, zeros}
use chamomile.Types.Peer.{Peer, IsPeer, peer_from_bytes, peer_to_bytes}
use chamomile.Types.RoundTrip.{
  canonical, peer_from_bytes-peer_to_bytes, peer_from_bytes-peer_to_bytes_v6,
}
use chamomile.Keys.Keypair.{ed25519, keypair_from_bytes, keypair_to_bytes, public, pk_len, psk_len}
use chamomile.Keys.RoundTrip.{keypair_from_bytes-keypair_to_bytes}
use chamomile.Wire.Core.{stable_result, core_to_bytes, core_from_bytes}
use chamomile.Wire.CoreTrip.{core_from_bytes-core_to_bytes}
use chamomile.Wire.Endpoint.{
  RemotePublic, relay_handshake, remote_to_bytes, endpoint_to_bytes, endpoint_from_bytes,
}
use chamomile.Wire.EndpointTrip.{IsRemote, endpoint_from_bytes-endpoint_to_bytes}
use chamomile.Store.Buffer.{Queue, init, remove_connect}
use chamomile.Store.Queues.{add_connects, remove_connect-add_connects}
use chamomile.Examples.{toy, pair, id_of, socket_of, peer_of}

zeros-IsByte : (n : ℕ) → All IsByte (replicate n 0)
zeros-IsByte zero = tt
zeros-IsByte (suc n) = (omega arith, zeros-IsByte n)

id-IsPeerId : (n : ℕ) → n < 256 → IsPeerId (id_of n)
id-IsPeerId n h = (refl, (h, zeros-IsByte 31))

socket-IsSocketAddr : (n : ℕ) → n < 256 → IsSocketAddr (socket_of n)
socket-IsSocketAddr n h =
    ((refl, (omega arith, (omega arith, (omega arith, (h, tt))))), omega arith)

pub peer_of-IsPeer : IsPeer (peer_of 4)
peer_of-IsPeer = (id-IsPeerId 4 (omega arith), socket-IsSocketAddr 4 (omega arith))

peer_from_bytes-peer_to_bytes_example :
    peer_from_bytes (peer_to_bytes (peer_of 4))
    ≡ ok (record (peer_of 4) { socket = canonical (socket_of 4) })
peer_from_bytes-peer_to_bytes_example = peer_from_bytes-peer_to_bytes (peer_of 4) peer_of-IsPeer

-- ::1
abbrev loopback : Bytes
loopback = replicate 15 0 ++ 1 ∷ []

abbrev local_peer : Peer
local_peer = record (peer_of 4) { socket = record { ip = v6 loopback; port = 7364 } }

local_peer-IsPeer : IsPeer local_peer
local_peer-IsPeer =
    (id-IsPeerId 4 (omega arith), ((refl, ground (arith, zeros-IsByte 15)), omega arith))

loopback_embeds : embeds_v4 loopback ≡ true
unfolding embeds_v4 zeros
loopback_embeds = refl

peer_from_bytes-peer_to_bytes_v6_example :
    (peer_from_bytes (peer_to_bytes local_peer)
      ≡ ok (record local_peer { socket = record { ip = v4 (0 ∷ 0 ∷ 0 ∷ 1 ∷ []); port = 7364 } }))
    × (peer_from_bytes (peer_to_bytes local_peer) ≢ ok local_peer)
peer_from_bytes-peer_to_bytes_v6_example =
    peer_from_bytes-peer_to_bytes_v6 local_peer loopback local_peer-IsPeer refl loopback_embeds

pub pk_two : 2 ≡ pk_len toy ed25519
unfolding pk_len
pk_two = refl

pub sk_two : 2 ≡ psk_len toy ed25519
unfolding psk_len
sk_two = refl

keypair_from_bytes-keypair_to_bytes_example :
    keypair_from_bytes toy (keypair_to_bytes (pair 5)) ≡ ok (public (pair 5))
keypair_from_bytes-keypair_to_bytes_example =
    keypair_from_bytes-keypair_to_bytes toy (pair 5) pk_two

core_from_bytes-core_to_bytes_example :
    core_from_bytes (core_to_bytes (stable_result 300 true (1 ∷ 2 ∷ [])))
    ≡ ok (stable_result 300 true (1 ∷ 2 ∷ []))
core_from_bytes-core_to_bytes_example =
    core_from_bytes-core_to_bytes (stable_result 300 true (1 ∷ 2 ∷ [])) (omega arith)

abbrev pub remote : RemotePublic
remote = record {
  key = record { key = ed25519; sk = []; pk = 6 ∷ 6 ∷ [] };
  peer = peer_of 4;
  dh = 1 ∷ 2 ∷ 3 ∷ [];
}

pub remote-IsRemote : IsRemote toy remote
remote-IsRemote = record {
  secret = refl;
  pk_length = pk_two;
  peer = (peer_of-IsPeer, tt);
  short = omega arith;
}

pub remote_short : length (remote_to_bytes remote) < 256 ^ 4
unfolding remote_to_bytes peer_to_bytes keypair_to_bytes to_be_bytes to_le_bytes id_to_bytes
    socket_addr_to_bytes ip_octets
remote_short = omega arith

endpoint_from_bytes-endpoint_to_bytes_example :
    endpoint_from_bytes toy (endpoint_to_bytes (relay_handshake remote (id_of 9)))
    ≡ ok (relay_handshake remote (id_of 9))
endpoint_from_bytes-endpoint_to_bytes_example =
    endpoint_from_bytes-endpoint_to_bytes toy (relay_handshake remote (id_of 9))
      (remote-IsRemote, remote_short, id-IsPeerId 9 (omega arith))

abbrev two_entries : Queue
two_entries = (1, 10 ∷ []) ∷ (2, 20 ∷ []) ∷ []

remove_connect-add_connects_example :
    ((remove_connect (id_of 1) (add_connects (id_of 1) two_entries init)).0
      ≡ (remove_connect (id_of 1) init).0 ++ two_entries)
    × ((remove_connect
          (id_of 1)
          (remove_connect (id_of 1) (add_connects (id_of 1) two_entries init)).1).0
        ≡ [])
    × ((remove_connect
          (id_of 2)
          (remove_connect (id_of 1) (add_connects (id_of 1) two_entries init)).1).0
        ≡ (remove_connect (id_of 2) init).0)
remove_connect-add_connects_example =
    remove_connect-add_connects (id_of 1) (id_of 2) two_entries init (λ e. ground arith)
