-- ===== src/Types/Peer.antt =====
-- types/src/peer.rs: `Peer`, its tests and its 52 bytes.
use chamomile.Prelude.{
  ℕ, Bool, true, [], ◌∷◌, ◌++◌, ℕ_discrete, ◌==◌, ◌||◌, not, length, take, drop, byte_at, equal,
  if◌then◌else◌,
}
use chamomile.Prelude.Bytes.{Bytes}
use chamomile.Prelude.Result.{Result, ok, reject, ◌>>=◌, ◌>>◌}
use chamomile.Types.Ids.{
  PeerId, PeerId-discrete, IsPeerId, default_id, id_from_bytes, id_to_bytes, TransportType,
  TransportType-discrete, quic, tcp, transport_from_byte, transport_to_byte,
}
use chamomile.Types.Socket.{
  SocketAddr, SocketAddr-discrete, IsSocketAddr, unspecified, socket_addr_to_bytes,
  socket_addr_from_bytes,
}

pub record Peer : Type 0 where
  pub id : PeerId
  pub socket : SocketAddr
  pub transport : TransportType
  pub is_pub : Bool

pub Peer-discrete : Discrete Peer
Peer-discrete = hlevel (ℕ_discrete, PeerId-discrete, SocketAddr-discrete, TransportType-discrete)

abbrev pub IsPeer : Peer → Type 0
IsPeer p = IsPeerId p.id × IsSocketAddr p.socket

-- `Peer::socket`
unfoldable pub peer_of_socket : SocketAddr → Peer
peer_of_socket socket = record { id = default_id; socket = socket; transport = quic; is_pub = true }

-- `Peer::peer`
unfoldable pub peer_of_id : PeerId → Peer
peer_of_id id = record { id = id; socket = unspecified; transport = quic; is_pub = true }

-- `Peer::default`
unfoldable pub default_peer : Peer
default_peer = record { id = default_id; socket = unspecified; transport = tcp; is_pub = true }

unfoldable pub effective_id : Peer → Bool
effective_id p = not (equal PeerId-discrete p.id default_id)

unfoldable pub effective_socket : Peer → Bool
effective_socket p = not (equal SocketAddr-discrete p.socket unspecified)

unfoldable pub effective : Peer → Bool
unfolding effective_socket effective_id
effective p = effective_socket p || effective_id p

unfoldable pub zero_port : Peer → Peer
zero_port p = record p { socket = record p.socket { port = 0 } }

abbrev pub peer_length : ℕ
peer_length = 52

unfoldable pub peer_from_bytes : Bytes → Result Peer
peer_from_bytes bytes = do
  reject (not (length bytes == peer_length)) "peer bytes failure."
  id ← id_from_bytes (take 32 bytes)
  socket ← socket_addr_from_bytes (take 18 (drop 32 bytes))
  transport ← transport_from_byte (byte_at bytes 50)
  ok (record { id = id; socket = socket; transport = transport; is_pub = byte_at bytes 51 == 1 })

unfoldable pub peer_to_bytes : Peer → Bytes
peer_to_bytes p =
    id_to_bytes p.id
    ++ (socket_addr_to_bytes p.socket
        ++ (transport_to_byte p.transport ∷ (if p.is_pub then 1 else 0) ∷ []))
