-- ===== src/Store/PeerList/Load.antt =====
-- src/peer_list.rs: `load` and the text that `save` writes. How the standard library prints and parses
-- addresses is an argument.
use chamomile.Prelude.{ℕ, ◌==◌, Option, none, some, List, [], ◌∷◌, ◌++◌, any, if◌then◌else◌}
use chamomile.Prelude.Bytes.{Bytes}
use chamomile.Prelude.Result.{Result, ok, err}
use chamomile.Types.Ids.{PeerId}
use chamomile.Types.Socket.{IpAddr, unspecified}
use chamomile.Types.Peer.{Peer}
use chamomile.Types.PeerText.{Printing, split, to_multiaddr_string, from_multiaddr_string}
use chamomile.Kad.Double.{new_double}
use chamomile.Store.PeerList.{PeerList, same_socket}

abbrev pub end_of_line : ℕ
end_of_line = 10

-- a line without the carriage return at its end
unfoldable pub without_return : Bytes → Bytes
without_return [] = []
without_return (b ∷ []) = if b == 13 then [] else b ∷ []
without_return (b ∷ c ∷ line) = b ∷ without_return (c ∷ line)

-- `BufRead::lines` on the pieces between the ends of lines: an empty last one is no line, and one that
-- has no end of line behind it keeps its carriage return
unfoldable pub lines_of : List Bytes → List Bytes
unfolding without_return
lines_of [] = []
lines_of ([] ∷ []) = []
lines_of ((b ∷ l) ∷ []) = (b ∷ l) ∷ []
lines_of (l ∷ k ∷ ls) = without_return l ∷ lines_of (k ∷ ls)

unfoldable pub lines : Bytes → List Bytes
unfolding split lines_of
lines text = lines_of (split end_of_line text)

module _ (p : Printing) where
  -- the text that `save` writes
  unfoldable pub save_text : List Peer → Bytes → Bytes
  unfolding to_multiaddr_string
  save_text [] text = text
  save_text (peer ∷ peers) text = save_text peers (text ++ end_of_line ∷ to_multiaddr_string p peer)

  unfoldable pub load_peer : Result Peer → List Peer → List Peer
  unfolding same_socket
  load_peer (err e) allows = allows
  load_peer (ok peer) allows =
      if any (same_socket peer.socket) allows then allows else allows ++ peer ∷ []

  -- the loop of `load` over the lines of the file
  unfoldable pub load_lines : List Bytes → List Peer → List Peer
  unfolding load_peer from_multiaddr_string
  load_lines [] allows = allows
  load_lines (line ∷ more) allows =
      load_lines more (load_peer (from_multiaddr_string p line) allows)

  -- `load`, on the text of the file, if it can be opened; every line can be read
  unfoldable pub load : PeerId → Option Bytes → List Peer → List PeerId → List IpAddr → PeerList
  unfolding load_lines lines new_double
  load peer_id none allows block_peers block_addrs = record {
    saved = [];
    allows = allows;
    block_peers = block_peers;
    block_addrs = block_addrs;
    dhts = new_double peer_id unspecified;
    stables = [];
  }
  load peer_id (some text) allows block_peers block_addrs = record {
    saved = [];
    allows = load_lines (lines text) allows;
    block_peers = block_peers;
    block_addrs = block_addrs;
    dhts = new_double peer_id unspecified;
    stables = [];
  }
