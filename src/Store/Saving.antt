-- ===== src/Store/Saving.antt =====
-- src/peer_list.rs: `load` on what `save` wrote.
use chamomile.Prelude.{
  ℕ, ◌<◌, Bool, true, false, none, some, List, [], ◌∷◌, ◌++◌, ◌≡◌, refl, sym, ap, ◌∙◌, arith, ◌==◌,
  All, All-append, eq→==, subst, if◌then◌else◌,
}
use chamomile.Prelude.Bytes.{Bytes}
use chamomile.Prelude.Result.{err}
use chamomile.Types.Ids.{PeerId}
use chamomile.Types.Socket.{IpAddr}
use chamomile.Types.Peer.{Peer}
use chamomile.Types.PeerText.{
  Printing, split, first_piece, slash, socket_text, to_multiaddr_string, from_multiaddr_string,
  parse_socket, parse_next, after_first,
}
use chamomile.Types.TextTrip.{Lacks, split-last}
use chamomile.Types.PeerTrip.{Documented, version-Lacks, transport-Lacks, from_string-fails}
use chamomile.Store.PeerList.Load.{
  end_of_line, without_return, lines_of, lines, save_text, load_peer, load_lines, load,
}

abbrev NonEmpty : List Bytes → Type 0
NonEmpty [] = ⊥
NonEmpty (p ∷ ps) = Unit

-- one byte in front of the pieces
abbrev in_front : Bool → ℕ → List Bytes → List Bytes
in_front is_sep b ps = if is_sep then [] ∷ ps else first_piece b ps

in_front-NonEmpty : (is_sep : Bool) (b : ℕ) (ps : List Bytes) → NonEmpty (in_front is_sep b ps)
unfolding first_piece
in_front-NonEmpty true b ps = tt
in_front-NonEmpty false b [] = tt
in_front-NonEmpty false b (p ∷ ps) = tt

split-NonEmpty : (sep : ℕ) (bytes : Bytes) → NonEmpty (split sep bytes)
unfolding split
split-NonEmpty sep [] = tt
split-NonEmpty sep (b ∷ bytes) = in_front-NonEmpty (b == sep) b (split sep bytes)

in_front-append :
    (is_sep : Bool) (b : ℕ) (ps qs : List Bytes)
    → NonEmpty ps
    → in_front is_sep b (ps ++ qs) ≡ in_front is_sep b ps ++ qs
unfolding first_piece
in_front-append is_sep b [] qs h = absurd h
in_front-append true b (p ∷ ps) qs h = refl
in_front-append false b (p ∷ ps) qs h = refl

split-append :
    (sep : ℕ) (text line : Bytes)
    → Lacks sep line
    → split sep (text ++ sep ∷ line) ≡ split sep text ++ line ∷ []
unfolding split
split-append sep [] line h = rw (eq→== sep sep refl) (ap (λ l. [] ∷ l) (split-last sep line h))
split-append sep (b ∷ text) line h =
    ap (in_front (b == sep) b) (split-append sep text line h)
    ∙ in_front-append (b == sep) b (split sep text) (line ∷ []) (split-NonEmpty sep text)

without_return-Lacks : (line : Bytes) → Lacks 13 line → without_return line ≡ line
unfolding without_return
without_return-Lacks [] h = refl
without_return-Lacks (b ∷ []) h = rw h.0 refl
without_return-Lacks (b ∷ k ∷ line) h = ap (λ l. b ∷ l) (without_return-Lacks (k ∷ line) h.1)

module _ (p : Printing) (d : Documented p) where
  -- a line that gives no peer, and has no carriage return
  abbrev IsBad : Bytes → Type 0
  IsBad line = (from_multiaddr_string p line ≡ err "peer string is invalid.") × Lacks 13 line

  empty-IsBad : IsBad []
  unfolding from_multiaddr_string parse_socket parse_next after_first split
  empty-IsBad = (refl, tt)

  to_multiaddr_string-Lacks :
      (peer : Peer) (sep : ℕ) → sep < 46 → Lacks sep (to_multiaddr_string p peer)
  unfolding to_multiaddr_string socket_text
  to_multiaddr_string-Lacks peer sep h =
      let ip = peer.socket.ip in
      let small : sep < 48 = omega arith in
      let other : (slash == sep) ≡ false = ground arith in
      let both = All-append (λ b. (b == sep) ≡ false) in
      (
        other,
        both _ _ (version-Lacks ip sep small) (
          other,
          both _ _ (d.ip_plain ip sep small (ground arith)) (
            other,
            both _ _ (transport-Lacks peer.transport sep small)
                (other, both _ _ (d.port_plain peer.socket.port sep small) tt),
          ),
        ),
      )

  save_text-IsBad :
      (peers : List Peer) (text : Bytes)
      → All IsBad (split end_of_line text)
      → All IsBad (split end_of_line (save_text p peers text))
  unfolding save_text
  save_text-IsBad [] text h = h
  save_text-IsBad (peer ∷ peers) text h =
      let line = to_multiaddr_string p peer in
      save_text-IsBad peers (text ++ end_of_line ∷ line) (
        subst (All IsBad)
          (sym (
            split-append end_of_line text line
              (to_multiaddr_string-Lacks peer end_of_line (omega arith))))
          (All-append IsBad (split end_of_line text) (line ∷ []) h (
            ((from_string-fails p d peer).1, to_multiaddr_string-Lacks peer 13 (omega arith)),
            tt,
          )))

  lines_of-IsBad : (ls : List Bytes) → All IsBad ls → All IsBad (lines_of ls)
  unfolding lines_of
  lines_of-IsBad [] h = tt
  lines_of-IsBad ([] ∷ []) h = tt
  lines_of-IsBad ((b ∷ l) ∷ []) h = h
  lines_of-IsBad ([] ∷ k ∷ ls) h = (h.0, lines_of-IsBad (k ∷ ls) h.1)
  lines_of-IsBad ((b ∷ l) ∷ k ∷ ls) h =
      (subst IsBad (sym (without_return-Lacks (b ∷ l) h.0.1)) h.0, lines_of-IsBad (k ∷ ls) h.1)

  load_lines-IsBad :
      (ls : List Bytes) (allows : List Peer) → All IsBad ls → load_lines p ls allows ≡ allows
  unfolding load_lines load_peer
  load_lines-IsBad [] allows h = refl
  load_lines-IsBad (l ∷ ls) allows h = rw (h.0.0, load_lines-IsBad ls allows h.1)

  -- Nothing that `save` wrote is read back: a node that starts on the file of its peers knows only
  -- the peers that its configuration allows, whatever the file was saved from, if the standard library
  -- prints and parses as it documents.
  pub load-save_text :
      (peers allows : List Peer) (peer_id : PeerId) (block_peers : List PeerId)
      (block_addrs : List IpAddr)
      → load p peer_id (some (save_text p peers [])) allows block_peers block_addrs
        ≡ load p peer_id none allows block_peers block_addrs
  unfolding load lines split
  load-save_text peers allows peer_id block_peers block_addrs =
      rw
        (load_lines-IsBad (lines (save_text p peers [])) allows (
          lines_of-IsBad (split end_of_line (save_text p peers []))
            (save_text-IsBad peers [] (empty-IsBad, tt))))
        refl
