-- ===== src/Types/PeerTrip.antt =====
-- types/src/peer.rs: what comes back from the text forms of a peer.
use chamomile.Prelude.{
  ℕ, ◌/◌, ◌%◌, ◌<◌, Bool, true, false, ◌==◌, none, some, List, [], ◌∷◌, ◌++◌, ◌≡◌, refl, ap, ◌∙◌,
  arith,
}
use chamomile.Prelude.Bytes.{Bytes}
use chamomile.Prelude.Result.{ok, err}
use chamomile.Types.Ids.{TransportType, quic, tcp, rtp, udt}
use chamomile.Types.Socket.{IpAddr, IsIpAddr, v4, v6}
use chamomile.Types.Peer.{Peer, IsPeer}
use chamomile.Types.Text.{hex_digit, hex_of, id_to_hex, transport_to_str}
use chamomile.Types.TextTrip.{
  Lacks, split-piece, split-last, id_from_hex-id_to_hex, transport_from_str-transport_to_str,
  parse_bool-print_bool,
}
use chamomile.Types.PeerText.{
  Printing, split, slash, print_bool, version, parse_next, parsed_next, unwrap_transport,
  after_first, hex_next, socket_text, to_multiaddr_string, to_string, parse_socket, from_string,
  from_multiaddr_string,
}

-- What the standard library documents: what it prints, it parses; the text of an address or a port has no
-- slash and no end of a line; and `ip4` and `ip6` are no addresses.
pub record Documented (p : Printing) : Type 0 where
  pub ip : (a : IpAddr) → IsIpAddr a → p.parse_ip (p.print_ip a) ≡ some a
  pub port : (n : ℕ) → n < 65536 → p.parse_port (p.print_port n) ≡ some n
  pub ip_plain : (a : IpAddr) (sep : ℕ) → sep < 48 → (sep == 46) ≡ false → Lacks sep (p.print_ip a)
  pub port_plain : (n sep : ℕ) → sep < 48 → Lacks sep (p.print_port n)
  pub no_version : (a : IpAddr) → p.parse_ip (version a) ≡ none

hex_digit-Lacks : (d sep : ℕ) → sep < 48 → (hex_digit d == sep) ≡ false
unfolding hex_digit
hex_digit-Lacks d sep h = ground arith

pub hex_of-Lacks : (bytes : Bytes) (sep : ℕ) → sep < 48 → Lacks sep (hex_of bytes)
unfolding hex_of
hex_of-Lacks [] sep h = tt
hex_of-Lacks (b ∷ bytes) sep h =
    (hex_digit-Lacks (b / 16) sep h, (hex_digit-Lacks (b % 16) sep h, hex_of-Lacks bytes sep h))

pub transport-Lacks : (t : TransportType) (sep : ℕ) → sep < 48 → Lacks sep (transport_to_str t)
unfolding transport_to_str
transport-Lacks quic sep h = (ground arith, (ground arith, (ground arith, (ground arith, tt))))
transport-Lacks tcp sep h = (ground arith, (ground arith, (ground arith, tt)))
transport-Lacks rtp sep h = (ground arith, (ground arith, (ground arith, tt)))
transport-Lacks udt sep h = (ground arith, (ground arith, (ground arith, tt)))

bool-Lacks : (b : Bool) → Lacks slash (print_bool b)
unfolding print_bool
bool-Lacks true = (refl, (refl, (refl, (refl, tt))))
bool-Lacks false = (refl, (refl, (refl, (refl, (refl, tt)))))

pub version-Lacks : (a : IpAddr) (sep : ℕ) → sep < 48 → Lacks sep (version a)
unfolding version
version-Lacks (v4 octets) sep h = (ground arith, (ground arith, (ground arith, tt)))
version-Lacks (v6 octets) sep h = (ground arith, (ground arith, (ground arith, tt)))

-- a text without its first byte
abbrev pub without_slash : Bytes → Bytes
without_slash [] = []
without_slash (b ∷ bytes) = bytes

module _ (p : Printing) (d : Documented p) where
  abbrev pieces : Peer → Bytes → List Bytes
  pieces peer rest =
      p.print_ip peer.socket.ip
      ∷ transport_to_str peer.transport
      ∷ split slash (p.print_port peer.socket.port ++ rest)

  split-socket_text :
      (peer : Peer) (rest : Bytes)
      → split slash (without_slash (socket_text p peer rest))
        ≡ version peer.socket.ip ∷ pieces peer rest
  unfolding socket_text
  split-socket_text peer rest =
      let ip = peer.socket.ip in
      let port = p.print_port peer.socket.port in
      let transport = transport_to_str peer.transport in
      split-piece slash (version ip)
        (p.print_ip ip ++ slash ∷ (transport ++ slash ∷ (port ++ rest)))
        (version-Lacks ip slash (omega arith))
      ∙ ap (λ l. version ip ∷ l)
          (split-piece slash (p.print_ip ip) (transport ++ slash ∷ (port ++ rest))
            (d.ip_plain ip slash (omega arith) refl))
      ∙ ap (λ l. version ip ∷ p.print_ip ip ∷ l)
          (split-piece slash transport (port ++ rest)
            (transport-Lacks peer.transport slash (omega arith)))

  -- the pieces behind the port
  abbrev id_pieces : Peer → List Bytes
  id_pieces peer = print_bool peer.is_pub ∷ id_to_hex peer.id ∷ []

  split-to_string :
      (peer : Peer)
      → split slash (without_slash (to_string p peer))
        ≡ version peer.socket.ip
          ∷ p.print_ip peer.socket.ip
          ∷ transport_to_str peer.transport
          ∷ p.print_port peer.socket.port
          ∷ id_pieces peer
  unfolding to_string id_to_hex
  split-to_string peer =
      let port = p.print_port peer.socket.port in
      let hex = hex_of peer.id.raw in
      let rest = slash ∷ (print_bool peer.is_pub ++ slash ∷ hex) in
      split-socket_text peer rest
      ∙ ap
          (λ l.
            version peer.socket.ip
            ∷ p.print_ip peer.socket.ip
            ∷ transport_to_str peer.transport
            ∷ l)
          (split-piece slash port (print_bool peer.is_pub ++ slash ∷ hex)
              (d.port_plain peer.socket.port slash (omega arith))
            ∙ ap (λ l. port ∷ l)
                (split-piece slash (print_bool peer.is_pub) hex (bool-Lacks peer.is_pub))
            ∙ ap (λ l. port ∷ print_bool peer.is_pub ∷ l)
                (split-last slash hex (hex_of-Lacks peer.id.raw slash (omega arith))))

  from_string-without_slash :
      (peer : Peer) → IsPeer peer → from_string p (without_slash (to_string p peer)) ≡ ok peer
  unfolding from_string parse_socket parse_next parsed_next after_first unwrap_transport hex_next
  from_string-without_slash peer h = rw (
    split-to_string peer,
    d.ip peer.socket.ip h.1.0,
    transport_from_str-transport_to_str peer.transport,
    d.port peer.socket.port h.1.1,
    parse_bool-print_bool peer.is_pub,
    id_from_hex-id_to_hex peer.id h.0,
  )

  parse_socket-socket_text :
      (peer : Peer) (rest : Bytes)
      → parse_socket p (socket_text p peer rest) ≡ err "peer string is invalid."
  unfolding parse_socket parse_next parsed_next after_first socket_text split
  parse_socket-socket_text peer rest =
      rw
        (
          split-piece slash (version peer.socket.ip)
              (p.print_ip peer.socket.ip
                ++ slash
                  ∷ (transport_to_str peer.transport
                      ++ slash ∷ (p.print_port peer.socket.port ++ rest)))
              (version-Lacks peer.socket.ip slash (omega arith)),
          d.no_version peer.socket.ip,
        )
        refl

  pub from_string-fails :
      (peer : Peer)
      → (from_string p (to_string p peer) ≡ err "peer string is invalid.")
        × (from_multiaddr_string p (to_multiaddr_string p peer) ≡ err "peer string is invalid.")
  unfolding from_string from_multiaddr_string to_string to_multiaddr_string
  from_string-fails peer = (
    rw
        (parse_socket-socket_text peer
          (slash ∷ (print_bool peer.is_pub ++ slash ∷ id_to_hex peer.id)))
        refl,
    rw (parse_socket-socket_text peer []) refl,
  )

  -- A peer comes back from its text without the slash that it starts with; with the slash, neither text
  -- form of it is read back, because the version in front of the address is taken for the address. The
  -- standard library prints and parses as it documents.
  pub from_string-to_string :
      (peer : Peer)
      → IsPeer peer
      → (from_string p (without_slash (to_string p peer)) ≡ ok peer)
        × (from_string p (to_string p peer) ≡ err "peer string is invalid.")
        × (from_multiaddr_string p (to_multiaddr_string p peer) ≡ err "peer string is invalid.")
  from_string-to_string peer h =
      (from_string-without_slash peer h, (from_string-fails peer).0, (from_string-fails peer).1)
