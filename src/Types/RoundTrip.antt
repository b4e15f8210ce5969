-- ===== src/Types/RoundTrip.antt =====
-- types/src/peer.rs and types/src/types.rs: bytes and back.
use chamomile.Prelude.{
  Bool, true, false, [], ◌∷◌, ◌++◌, ◌≡◌, ◌≢◌, refl, ap, ◌∙◌, arith, ◌==◌, eq→==, length, drop,
  length-append, take-append_of, drop-append_of, byte_at-drop, take_all, drop-add, if◌then◌else◌,
}
use chamomile.Prelude.Bytes.{Bytes, to_le_bytes, length-to_le_bytes, from_le_bytes-to_le_bytes}
use chamomile.Prelude.Result.{ok}
use chamomile.Types.Ids.{
  id_from_bytes, id_to_bytes, TransportType, quic, tcp, rtp, udt, transport_from_byte,
  transport_to_byte,
}
use chamomile.Types.Socket.{
  IpAddr, v4, v6, SocketAddr, IsIpAddr, IsSocketAddr, ip_octets, embeds_v4, ip_from_octets,
  socket_addr_to_bytes, socket_addr_from_bytes,
}
use chamomile.Types.Peer.{Peer, IsPeer, peer_from_bytes, peer_to_bytes}

-- A transport comes back from its byte.
pub transport_from_byte-transport_to_byte :
    (t : TransportType) → transport_from_byte (transport_to_byte t) ≡ ok t
unfolding transport_from_byte transport_to_byte
transport_from_byte-transport_to_byte quic = refl
transport_from_byte-transport_to_byte tcp = refl
transport_from_byte-transport_to_byte rtp = refl
transport_from_byte-transport_to_byte udt = refl

pub length-ip_octets : (ip : IpAddr) → IsIpAddr ip → length (ip_octets ip) ≡ 16
unfolding ip_octets
length-ip_octets (v4 octets) h = omega (arith, h.0)
length-ip_octets (v6 octets) h = h.0

pub length-socket_addr_to_bytes :
    (s : SocketAddr) → IsSocketAddr s → length (socket_addr_to_bytes s) ≡ 18
unfolding socket_addr_to_bytes
length-socket_addr_to_bytes s h = omega (
  arith,
  length-append (ip_octets s.ip) (to_le_bytes 2 s.port),
  length-ip_octets s.ip h.0,
  length-to_le_bytes 2 s.port,
)

-- An address in canonical form: a V4 address as it is, and of a V6 address that embeds a V4 one that
-- V4 address.
abbrev pub canonical_ip : IpAddr → IpAddr
canonical_ip (v4 octets) = v4 octets
canonical_ip (v6 octets) = if embeds_v4 octets then v4 (drop 12 octets) else v6 octets

abbrev pub canonical : SocketAddr → SocketAddr
canonical s = record { ip = canonical_ip s.ip; port = s.port }

ip_from_octets-ip_octets : (ip : IpAddr) → ip_from_octets (ip_octets ip) ≡ canonical_ip ip
unfolding ip_from_octets ip_octets embeds_v4
ip_from_octets-ip_octets (v4 octets) = refl
ip_from_octets-ip_octets (v6 octets) = refl

socket_addr_from_bytes-socket_addr_to_bytes :
    (s : SocketAddr)
    → IsSocketAddr s
    → socket_addr_from_bytes (socket_addr_to_bytes s) ≡ ok (canonical s)
unfolding socket_addr_to_bytes socket_addr_from_bytes
socket_addr_from_bytes-socket_addr_to_bytes s h =
    let octets = ip_octets s.ip in
    let port = to_le_bytes 2 s.port in
    let n : length octets ≡ 16 = length-ip_octets s.ip h.0 in
    rw (
      eq→== _ 18 (length-socket_addr_to_bytes s h),
      take-append_of 16 octets port n,
      drop-append_of 16 octets port n,
      take_all 2 port (length-to_le_bytes 2 s.port),
      from_le_bytes-to_le_bytes 2 s.port h.1,
      ip_from_octets-ip_octets s.ip,
    )

pub length-peer_to_bytes : (p : Peer) → IsPeer p → length (peer_to_bytes p) ≡ 52
unfolding peer_to_bytes id_to_bytes
length-peer_to_bytes p h =
    let rest = socket_addr_to_bytes p.socket in
    let flags = transport_to_byte p.transport ∷ (if p.is_pub then 1 else 0) ∷ [] in
    omega (
      arith,
      length-append p.id.raw (rest ++ flags),
      length-append rest flags,
      length-socket_addr_to_bytes p.socket h.1,
      h.0.0,
    )

pub_flag : (b : Bool) → ((if b then 1 else 0) == 1) ≡ b
pub_flag true = refl
pub_flag false = refl

-- Decoding the bytes of a peer, whose fields have the widths of their types, gives the peer with
-- its address in canonical form: a V4 address, or a V6 address that embeds none, is as it was, and a
-- V6 address that embeds a V4 one becomes that.
pub peer_from_bytes-peer_to_bytes :
    (p : Peer)
    → IsPeer p
    → peer_from_bytes (peer_to_bytes p) ≡ ok (record p { socket = canonical p.socket })
unfolding peer_from_bytes peer_to_bytes id_to_bytes id_from_bytes
peer_from_bytes-peer_to_bytes p h =
    let sock = socket_addr_to_bytes p.socket in
    let flags = transport_to_byte p.transport ∷ (if p.is_pub then 1 else 0) ∷ [] in
    let n : length p.id.raw ≡ 32 = h.0.0 in
    let m : length sock ≡ 18 = length-socket_addr_to_bytes p.socket h.1 in
    let bytes = p.id.raw ++ (sock ++ flags) in
    let back : drop 50 bytes ≡ flags =
      drop-add 32 18 bytes
      ∙ (rw (drop-append_of 32 p.id.raw (sock ++ flags) n) (drop-append_of 18 sock flags m)) in
    rw (
      eq→== _ 52 (length-peer_to_bytes p h),
      take-append_of 32 p.id.raw (sock ++ flags) n,
      drop-append_of 32 p.id.raw (sock ++ flags) n,
      take-append_of 18 sock flags m,
      eq→== _ 32 n,
      socket_addr_from_bytes-socket_addr_to_bytes p.socket h.1,
      byte_at-drop 50 0 (p.id.raw ++ (sock ++ flags)),
      byte_at-drop 50 1 (p.id.raw ++ (sock ++ flags)),
      back,
      transport_from_byte-transport_to_byte p.transport,
      pub_flag p.is_pub,
    )

-- An address that no V6 form hides: V4, or V6 with no V4 address embedded.
abbrev pub IsPlain : IpAddr → Type 0
IsPlain (v4 octets) = Unit
IsPlain (v6 octets) = embeds_v4 octets ≡ false

canonical-IsPlain : (a : IpAddr) → IsPlain a → canonical_ip a ≡ a
canonical-IsPlain (v4 octets) g = refl
canonical-IsPlain (v6 octets) g = rw g refl

-- A peer, whose fields have the widths of their types, comes back from its 52 bytes as it was, if
-- its address is a V4 address or a V6 address that is neither V4-mapped nor V4-compatible.
pub peer_from_bytes-peer_to_bytes_plain :
    (p : Peer) → IsPeer p → IsPlain p.socket.ip → peer_from_bytes (peer_to_bytes p) ≡ ok p
peer_from_bytes-peer_to_bytes_plain p h g =
    peer_from_bytes-peer_to_bytes p h
    ∙ ap (λ a. ok (record p { socket = record { ip = a; port = p.socket.port } }))
        (canonical-IsPlain p.socket.ip g)

-- A peer at a V6 address that is V4-mapped or V4-compatible, whose fields have the widths of their
-- types, comes back as another one: at the V4 address in the last four octets.
pub peer_from_bytes-peer_to_bytes_v6 :
    (p : Peer) (octets : Bytes)
    → IsPeer p
    → p.socket.ip ≡ v6 octets
    → embeds_v4 octets ≡ true
    → (peer_from_bytes (peer_to_bytes p)
        ≡ ok (record p { socket = record { ip = v4 (drop 12 octets); port = p.socket.port } }))
      × (peer_from_bytes (peer_to_bytes p) ≢ ok p)
peer_from_bytes-peer_to_bytes_v6 p octets h e g = (back, λ same. ground (arith, back, same, e))
  where
    back :
        peer_from_bytes (peer_to_bytes p)
        ≡ ok (record p { socket = record { ip = v4 (drop 12 octets); port = p.socket.port } })
    back =
        peer_from_bytes-peer_to_bytes p h
        ∙ ap (λ a. ok (record p { socket = record { ip = a; port = p.socket.port } }))
            (rw (e, g) refl)
