-- ===== src/Types/Socket.antt =====
-- types/src/peer.rs: socket addresses and their 18 bytes. `std::net::SocketAddr` is the octets of
-- the address and the port; the flow label and the scope of a V6 address are 0 here.
use chamomile.Prelude.{
  ℕ, zero, suc, ◌<◌, Bool, true, [], ◌∷◌, ◌++◌, ℕ_discrete, ◌==◌, ◌&&◌, ◌||◌, not, length,
  replicate, take, drop, byte_at, if◌then◌else◌,
}
use chamomile.Prelude.Bytes.{Bytes, IsArray, to_le_bytes, from_le_bytes}
use chamomile.Prelude.Result.{Result, ok, reject, ◌>>◌}

pub data IpAddr : Type 0 where
  v4 : Bytes → IpAddr
  v6 : Bytes → IpAddr

pub record SocketAddr : Type 0 where
  pub ip : IpAddr
  pub port : ℕ

pub IpAddr-discrete : Discrete IpAddr
IpAddr-discrete = hlevel ℕ_discrete

pub SocketAddr-discrete : Discrete SocketAddr
SocketAddr-discrete = hlevel (ℕ_discrete, IpAddr-discrete)

abbrev pub IsIpAddr : IpAddr → Type 0
IsIpAddr (v4 octets) = IsArray 4 octets
IsIpAddr (v6 octets) = IsArray 16 octets

-- The widths of the source's types: `[u8; 4]`, `[u8; 16]` and `u16`.
abbrev pub IsSocketAddr : SocketAddr → Type 0
IsSocketAddr s = IsIpAddr s.ip × (s.port < 65536)

-- `SocketAddr::new(IpAddr::V4(Ipv4Addr::new(0, 0, 0, 0)), 0)`
abbrev pub unspecified : SocketAddr
unspecified = record { ip = v4 (0 ∷ 0 ∷ 0 ∷ 0 ∷ []); port = 0 }

-- `Ipv4Addr::to_ipv6_mapped().octets()`, and the octets of a V6 address
unfoldable pub ip_octets : IpAddr → Bytes
ip_octets (v4 octets) = replicate 10 0 ++ 255 ∷ 255 ∷ octets
ip_octets (v6 octets) = octets

-- whether the first `n` octets are 0
unfoldable pub zeros : ℕ → Bytes → Bool
zeros zero octets = true
zeros (suc n) octets = byte_at octets n == 0 && zeros n octets

-- `Ipv6Addr::to_ipv4` gives an address for ::ffff:a.b.c.d, and for ::a.b.c.d as well
unfoldable pub embeds_v4 : Bytes → Bool
unfolding zeros
embeds_v4 octets =
    zeros 10 octets
    && ((byte_at octets 10 == 0 && byte_at octets 11 == 0)
        || (byte_at octets 10 == 255 && byte_at octets 11 == 255))

unfoldable pub socket_addr_to_bytes : SocketAddr → Bytes
socket_addr_to_bytes socket = ip_octets socket.ip ++ to_le_bytes 2 socket.port

-- `ipv6.to_ipv4()` where it gives an address, and the V6 address itself otherwise
unfoldable pub ip_from_octets : Bytes → IpAddr
ip_from_octets octets = if embeds_v4 octets then v4 (drop 12 octets) else v6 octets

unfoldable pub socket_addr_from_bytes : Bytes → Result SocketAddr
socket_addr_from_bytes bytes = do
  reject (not (length bytes == 18)) "peer bytes failure."
  let port = from_le_bytes (take 2 (drop 16 bytes))
  let ip_bytes = take 16 bytes
  ok (record { ip = ip_from_octets ip_bytes; port = port })
