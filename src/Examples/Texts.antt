-- ===== src/Examples/Texts.antt =====
-- A way to print and parse addresses, and the texts of peers in it.
use chamomile.Prelude.{
  ℕ, ◌<◌, ◌==◌, Option, none, some, [], ◌∷◌, ◌≡◌, refl, ap, ◌∙◌, arith, if◌then◌else◌,
}
use chamomile.Prelude.Bytes.{
  Bytes, to_le_bytes, from_le_bytes, to_le_bytes-IsByte, from_le_bytes-to_le_bytes,
}
use chamomile.Prelude.Maybe.{map_option}
use chamomile.Prelude.Result.{ok, err}
use chamomile.Types.Socket.{IpAddr, IsIpAddr, v4, v6}
use chamomile.Types.Text.{hex_of, read_hex}
use chamomile.Types.TextTrip.{Lacks, read_hex-hex_of}
use chamomile.Types.PeerText.{
  Printing, version, to_string, to_multiaddr_string, from_string, from_multiaddr_string,
}
use chamomile.Types.PeerTrip.{Documented, hex_of-Lacks, without_slash, from_string-to_string}
use chamomile.Keys.Keypair.{keypair_to_db_bytes, keypair_from_db_bytes}
use chamomile.Store.PeerList.Load.{load, save_text}
use chamomile.Store.Saving.{load-save_text}
use chamomile.Server.Start.{default_config, load_key, start}
use chamomile.Server.Starting.{start_again}
use chamomile.Examples.{toy, pair, id_of, socket_of, peer_of}
use chamomile.Examples.Coding.{peer_of-IsPeer, pk_two, sk_two}
use chamomile.Examples.Sessions.{node_of}

-- a digit for the version, and the octets in hexadecimal
unfoldable print_ip : IpAddr → Bytes
print_ip (v4 octets) = 52 ∷ hex_of octets
print_ip (v6 octets) = 54 ∷ hex_of octets

unfoldable parse_ip : Bytes → Option IpAddr
parse_ip [] = none
parse_ip (b ∷ s) =
    if b == 52
    then map_option v4 (read_hex s)
    else if b == 54
    then map_option v6 (read_hex s)
    else none

abbrev printing : Printing
printing = record {
  print_ip = print_ip;
  parse_ip = parse_ip;
  print_port = λ n. hex_of (to_le_bytes 2 n);
  parse_port = λ s. map_option from_le_bytes (read_hex s);
}

ip_lem : (a : IpAddr) → IsIpAddr a → parse_ip (print_ip a) ≡ some a
unfolding parse_ip print_ip
ip_lem (v4 octets) h = ap (map_option v4) (read_hex-hex_of octets h.1)
ip_lem (v6 octets) h = ap (map_option v6) (read_hex-hex_of octets h.1)

ip_plain_lem : (a : IpAddr) (sep : ℕ) → sep < 48 → Lacks sep (print_ip a)
unfolding print_ip
ip_plain_lem (v4 octets) sep h = (ground arith, hex_of-Lacks octets sep h)
ip_plain_lem (v6 octets) sep h = (ground arith, hex_of-Lacks octets sep h)

no_version_lem : (a : IpAddr) → parse_ip (version a) ≡ none
unfolding parse_ip version
no_version_lem (v4 octets) = refl
no_version_lem (v6 octets) = refl

printing-Documented : Documented printing
printing-Documented = record {
  ip = ip_lem;
  port = λ n h.
      ap (map_option from_le_bytes) (read_hex-hex_of (to_le_bytes 2 n) (to_le_bytes-IsByte 2 n))
      ∙ ap some (from_le_bytes-to_le_bytes 2 n (omega arith));
  ip_plain = λ a sep h n. ip_plain_lem a sep h;
  port_plain = λ n sep h. hex_of-Lacks (to_le_bytes 2 n) sep h;
  no_version = no_version_lem;
}

from_string-to_string_example :
    (from_string printing (without_slash (to_string printing (peer_of 4))) ≡ ok (peer_of 4))
    × (from_string printing (to_string printing (peer_of 4)) ≡ err "peer string is invalid.")
    × (from_multiaddr_string printing (to_multiaddr_string printing (peer_of 4))
        ≡ err "peer string is invalid.")
from_string-to_string_example =
    from_string-to_string printing printing-Documented (peer_of 4) peer_of-IsPeer

load-save_text_example :
    load printing
      (id_of 4)
      (some (save_text printing (peer_of 5 ∷ peer_of 6 ∷ []) []))
      (peer_of 7 ∷ [])
      []
      []
    ≡ load printing (id_of 4) none (peer_of 7 ∷ []) [] []
load-save_text_example =
    load-save_text printing printing-Documented (peer_of 5 ∷ peer_of 6 ∷ []) (peer_of 7 ∷ [])
      (id_of 4) [] []

made_key : (load_key toy [] (pair 4)).1 ≡ some (keypair_to_db_bytes (pair 4))
unfolding load_key keypair_from_db_bytes
made_key = refl

start_again_example :
    (start printing
      (default_config (peer_of 4))
      (keypair_to_db_bytes (pair 4))
      (pair 5)
      none
      (socket_of 5)
      (node_of 5)).0
    ≡ (start printing (default_config (peer_of 4)) [] (pair 4) none (socket_of 4) (node_of 4)).0
start_again_example =
    start_again printing printing (default_config (peer_of 4)) (default_config (peer_of 4))
      (node_of 4) (node_of 5) [] (keypair_to_db_bytes (pair 4)) (pair 4) (pair 5) none none
      (socket_of 4) (socket_of 5) refl pk_two sk_two made_key
