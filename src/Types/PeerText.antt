-- ===== src/Types/PeerText.antt =====
-- types/src/peer.rs: the text forms of `Peer`. How the standard library prints and parses addresses and
-- ports is an argument.
use chamomile.Prelude.{
  ℕ, Bool, true, false, ◌==◌, Option, none, some, List, [], ◌∷◌, ◌++◌, equal, if◌then◌else◌,
}
use chamomile.Prelude.Bytes.{Bytes}
use chamomile.Prelude.Result.{Result, ok, err, ◌>>=◌}
use chamomile.Types.Ids.{PeerId, TransportType, default_id}
use chamomile.Types.Socket.{IpAddr, v4, v6, SocketAddr}
use chamomile.Types.Peer.{Peer}
use chamomile.Types.Text.{
  bytes-discrete, id_to_hex, id_from_hex, transport_to_str, transport_from_str,
}

-- `Display` and `FromStr` of `IpAddr`, and of the `u16` of a port.
pub record Printing : Type 0 where
  pub print_ip : IpAddr → Bytes
  pub parse_ip : Bytes → Option IpAddr
  pub print_port : ℕ → Bytes
  pub parse_port : Bytes → Option ℕ

-- `str::split`
unfoldable pub first_piece : ℕ → List Bytes → List Bytes
first_piece b [] = (b ∷ []) ∷ []
first_piece b (p ∷ pieces) = (b ∷ p) ∷ pieces

unfoldable pub split : ℕ → Bytes → List Bytes
unfolding first_piece
split sep [] = [] ∷ []
split sep (b ∷ bytes) =
    let rest = split sep bytes in if b == sep then [] ∷ rest else first_piece b rest

abbrev pub slash : ℕ
slash = 47

abbrev pub true_text : Bytes
true_text = 116 ∷ 114 ∷ 117 ∷ 101 ∷ []

abbrev pub false_text : Bytes
false_text = 102 ∷ 97 ∷ 108 ∷ 115 ∷ 101 ∷ []

unfoldable pub print_bool : Bool → Bytes
print_bool true = true_text
print_bool false = false_text

unfoldable pub parse_bool : Bytes → Option Bool
parse_bool s =
    if equal bytes-discrete s true_text
    then some true
    else if equal bytes-discrete s false_text
    then some false
    else none

-- `if self.socket.is_ipv4() { "4" } else { "6" }`, after `ip`
unfoldable pub version : IpAddr → Bytes
version (v4 octets) = 105 ∷ 112 ∷ 52 ∷ []
version (v6 octets) = 105 ∷ 112 ∷ 54 ∷ []

unfoldable pub parsed_next : {A : Type 0} → Option A → List Bytes → Result (A × List Bytes)
parsed_next (some a) pieces = ok (a, pieces)
parsed_next none pieces = err "peer string is invalid."

-- `ss.next().ok_or(…)?.parse().or(…)?`, with the pieces behind it
unfoldable pub parse_next : {A : Type 0} → (Bytes → Option A) → List Bytes → Result (A × List Bytes)
unfolding parsed_next
parse_next parse [] = err "peer string is invalid."
parse_next parse (piece ∷ pieces) = parsed_next (parse piece) pieces

-- `TransportType::from_str(ss.next().unwrap())`, which panics where there is no piece
unfoldable pub unwrap_transport : List Bytes → Result (TransportType × List Bytes)
unwrap_transport [] = err "called `Option::unwrap()` on a `None` value"
unwrap_transport (piece ∷ pieces) = ok (transport_from_str piece, pieces)

unfoldable pub after_first : List Bytes → List Bytes
after_first [] = []
after_first (piece ∷ pieces) = pieces

unfoldable pub hex_next : List Bytes → Result PeerId
unfolding id_from_hex
hex_next [] = err "peer string is invalid."
hex_next (piece ∷ pieces) = id_from_hex piece

module _ (p : Printing) where
  -- address, transport and port, which both text forms share, before the rest
  unfoldable pub socket_text : Peer → Bytes → Bytes
  unfolding version transport_to_str
  socket_text peer rest =
      slash
      ∷ (version peer.socket.ip
          ++ slash
            ∷ (p.print_ip peer.socket.ip
                ++ slash
                  ∷ (transport_to_str peer.transport
                      ++ slash ∷ (p.print_port peer.socket.port ++ rest))))

  unfoldable pub to_multiaddr_string : Peer → Bytes
  to_multiaddr_string peer = socket_text peer []

  unfoldable pub to_string : Peer → Bytes
  unfolding print_bool id_to_hex
  to_string peer = socket_text peer (slash ∷ (print_bool peer.is_pub ++ slash ∷ id_to_hex peer.id))

  unfoldable pub parse_socket : Bytes → Result (SocketAddr × TransportType × List Bytes)
  unfolding split parse_next unwrap_transport after_first
  parse_socket s = do
    (ip, pieces) ← parse_next p.parse_ip (after_first (split slash s))
    (transport, pieces') ← unwrap_transport pieces
    (port, rest) ← parse_next p.parse_port pieces'
    ok (record { ip = ip; port = port }, transport, rest)

  unfoldable pub from_string : Bytes → Result Peer
  unfolding parse_socket parse_next parse_bool hex_next
  from_string s = do
    (socket, transport, pieces) ← parse_socket s
    (is_pub, rest) ← parse_next parse_bool pieces
    id ← hex_next rest
    ok (record { id = id; socket = socket; transport = transport; is_pub = is_pub })

  unfoldable pub from_multiaddr_string : Bytes → Result Peer
  unfolding parse_socket
  from_multiaddr_string s = do
    (socket, transport, pieces) ← parse_socket s
    ok (record { id = default_id; socket = socket; transport = transport; is_pub = true })
