-- ===== src/Wire/EndpointTrip.antt =====
-- src/transports.rs: endpoint messages to bytes and back.
use mathlib.Core.List.{append-nil}
use native.Mathlib.Nat.{mod-eq_of_lt}
use chamomile.Prelude.{
  ℕ, suc, ◌+◌, ◌%◌, ◌^◌, ◌≤◌, ◌<◌, [], ◌++◌, ◌≡◌, refl, sym, ap, subst, arith, All, ltb-false,
  ltb-suc-one, eq→==, length, length-append, take_all, take-append_of, drop-append_of,
}
use chamomile.Prelude.Bytes.{Bytes, to_be_bytes, length-to_be_bytes, from_be_bytes-to_be_bytes}
use chamomile.Prelude.Result.{ok}
use chamomile.Types.Ids.{PeerId, IsPeerId, id_from_bytes, id_to_bytes}
use chamomile.Types.Peer.{peer_to_bytes}
use chamomile.Types.RoundTrip.{length-peer_to_bytes, peer_from_bytes-peer_to_bytes_plain}
use chamomile.Keys.Crypto.{Crypto}
use chamomile.Keys.Keypair.{Keypair, pk_len, keypair_to_bytes, public}
use chamomile.Keys.RoundTrip.{keypair_from_bytes-keypair_to_bytes}
use chamomile.Wire.Hole.{dht_to_bytes}
use chamomile.Wire.PeersTrip.{IsPlainPeer, hole_from_byte-hole_to_byte, dht_from_bytes-dht_to_bytes}
use chamomile.Wire.Endpoint.{
  RemotePublic, EndpointMessage, close, handshake, dht, hole, hole_connect, core, relay_handshake,
  relay_data, remote_to_bytes, remote_from_bytes, endpoint_to_bytes, endpoint_from_bytes,
  read_remote, read_handshake, read_relay_handshake, read_dht, read_hole, read_relay_data,
  read_message,
}

length-keypair_to_bytes : (k : Keypair) → length (keypair_to_bytes k) ≡ suc (length k.pk)
unfolding keypair_to_bytes
length-keypair_to_bytes k = refl

module _ (c : Crypto) where
  -- What `generate_remote` sends: a key without its secret half, short enough for two bytes.
  pub record IsRemote (r : RemotePublic) : Type 0 where
    pub secret : r.key.sk ≡ []
    pub pk_length : length r.key.pk ≡ pk_len c r.key.key
    pub peer : IsPlainPeer r.peer
    pub short : suc (length r.key.pk) < 256 ^ 2

  public_of : (r : RemotePublic) → IsRemote r → public r.key ≡ r.key
  unfolding public
  public_of r h = ap (λ x. record { key = r.key.key; sk = x; pk = r.key.pk }) (sym h.secret)

  -- A remote with a public key alone, of its type's length, and a peer at a plain address comes back
  -- from its bytes as it was.
  pub remote_from_bytes-remote_to_bytes :
      (r : RemotePublic) → IsRemote r → remote_from_bytes c (remote_to_bytes r) ≡ ok r
  unfolding remote_from_bytes remote_to_bytes
  remote_from_bytes-remote_to_bytes r h =
      let key = keypair_to_bytes r.key in
      let kl = length-keypair_to_bytes r.key in
      let head = to_be_bytes 2 (length key) in
      let body = head ++ (key ++ r.dh) in
      let n = length-peer_to_bytes r.peer h.peer.0 in
      let small : length key < 2 ^ 16 = omega (arith, h.short, kl) in
      let hl = length-to_be_bytes 2 (length key) in
      rw (
        mod-eq_of_lt small,
        ltb-false (length (peer_to_bytes r.peer ++ body)) 54 (
            omega
              (arith, length-append (peer_to_bytes r.peer) body, length-append head (key ++ r.dh))),
        take-append_of 52 (peer_to_bytes r.peer) body n,
        peer_from_bytes-peer_to_bytes_plain r.peer h.peer.0 h.peer.1,
        drop-append_of 52 (peer_to_bytes r.peer) body n,
        take-append_of 2 head (key ++ r.dh) hl,
        drop-append_of 2 head (key ++ r.dh) hl,
        from_be_bytes-to_be_bytes 2 (length key) small,
        ltb-false (length (key ++ r.dh)) (length key) (omega (arith, length-append key r.dh)),
        take-append_of (length key) key r.dh refl,
        drop-append_of (length key) key r.dh refl,
        keypair_from_bytes-keypair_to_bytes c r.key h.pk_length,
        public_of r h,
      )

  read_remote_lem :
      (more : ℕ) (r : RemotePublic) (rest : Bytes)
      → IsRemote r
      → length (remote_to_bytes r) < 256 ^ 4
      → more ≤ length rest
      → read_remote c more
          (to_be_bytes 4 (length (remote_to_bytes r) % 2 ^ 32) ++ (remote_to_bytes r ++ rest))
        ≡ ok (r, rest)
  unfolding read_remote
  read_remote_lem more r rest h small room =
      let bytes = remote_to_bytes r in
      let head = to_be_bytes 4 (length bytes) in
      let hl = length-to_be_bytes 4 (length bytes) in
      rw (
        mod-eq_of_lt {m = 2 ^ 32} small,
        ltb-false (length (head ++ (bytes ++ rest))) 4
            (omega (arith, length-append head (bytes ++ rest))),
        take-append_of 4 head (bytes ++ rest) hl,
        drop-append_of 4 head (bytes ++ rest) hl,
        from_be_bytes-to_be_bytes 4 (length bytes) small,
        ltb-false (length (bytes ++ rest)) (length bytes + more)
            (omega (arith, length-append bytes rest)),
        take-append_of (length bytes) bytes rest refl,
        drop-append_of (length bytes) bytes rest refl,
        remote_from_bytes-remote_to_bytes r h,
      )

  -- The sizes that the bytes of a message can carry.
  abbrev pub IsMessage : EndpointMessage → Type 0
  IsMessage close = Unit
  IsMessage (handshake r) = IsRemote r × (length (remote_to_bytes r) < 256 ^ 4)
  IsMessage (dht peers) = All IsPlainPeer peers × (length peers < 256 ^ 4)
  IsMessage (hole h) = Unit
  IsMessage hole_connect = Unit
  IsMessage (core bytes) = Unit
  IsMessage (relay_handshake r to) =
      IsRemote r × (length (remote_to_bytes r) < 256 ^ 4) × IsPeerId to
  IsMessage (relay_data from to bytes) = IsPeerId from × IsPeerId to

  handshake_lem :
      (r : RemotePublic)
      → IsMessage (handshake r)
      → read_handshake c (to_be_bytes 4 (length (remote_to_bytes r) % 2 ^ 32) ++ remote_to_bytes r)
        ≡ ok (handshake r)
  unfolding read_handshake
  handshake_lem r h = rw (
      subst
        (λ x.
          read_remote c 0 (to_be_bytes 4 (length (remote_to_bytes r) % 2 ^ 32) ++ x) ≡ ok (r, []))
        (append-nil (remote_to_bytes r)) (read_remote_lem 0 r [] h.0 h.1 (omega arith)))

  relay_handshake_lem :
      (r : RemotePublic) (to : PeerId)
      → IsMessage (relay_handshake r to)
      → read_relay_handshake c (
          to_be_bytes 4 (length (remote_to_bytes r) % 2 ^ 32)
          ++ (remote_to_bytes r ++ id_to_bytes to))
        ≡ ok (relay_handshake r to)
  unfolding read_relay_handshake id_to_bytes id_from_bytes
  relay_handshake_lem r to h = rw (
    read_remote_lem 32 r to.raw h.0 h.1 (omega (arith, h.2.0)),
    take_all 32 to.raw h.2.0,
    eq→== (length to.raw) 32 h.2.0,
  )

relay_data_lem :
    (from to : PeerId) (bytes : Bytes)
    → IsPeerId from
    → IsPeerId to
    → read_relay_data (id_to_bytes from ++ (id_to_bytes to ++ bytes))
      ≡ ok (relay_data from to bytes)
unfolding read_relay_data id_to_bytes id_from_bytes
relay_data_lem from to bytes hf ht = rw (
  ltb-false (length (from.raw ++ (to.raw ++ bytes))) 64 (
      omega
        (arith, length-append from.raw (to.raw ++ bytes), length-append to.raw bytes, hf.0, ht.0)),
  take-append_of 32 from.raw (to.raw ++ bytes) hf.0,
  drop-append_of 32 from.raw (to.raw ++ bytes) hf.0,
  take-append_of 32 to.raw bytes ht.0,
  drop-append_of 32 to.raw bytes ht.0,
  eq→== (length from.raw) 32 hf.0,
  eq→== (length to.raw) 32 ht.0,
)

module _ (c : Crypto) where
  -- Every kind of endpoint message comes back from its bytes as it was, if its remote carries no
  -- secret key, its addresses are plain and its lengths fit in the bytes that hold them.
  pub endpoint_from_bytes-endpoint_to_bytes :
      (m : EndpointMessage) → IsMessage c m → endpoint_from_bytes c (endpoint_to_bytes m) ≡ ok m
  unfolding endpoint_from_bytes endpoint_to_bytes read_message read_dht read_hole
  endpoint_from_bytes-endpoint_to_bytes close h = refl
  endpoint_from_bytes-endpoint_to_bytes hole_connect h = refl
  endpoint_from_bytes-endpoint_to_bytes (core bytes) h = rw (ltb-suc-one (length bytes))
  endpoint_from_bytes-endpoint_to_bytes (hole x) h = rw (hole_from_byte-hole_to_byte x)
  endpoint_from_bytes-endpoint_to_bytes (dht peers) h =
      rw (ltb-suc-one (length (dht_to_bytes peers)), dht_from_bytes-dht_to_bytes peers h.0 h.1)
  endpoint_from_bytes-endpoint_to_bytes (handshake r) h = rw (
    ltb-suc-one (length (to_be_bytes 4 (length (remote_to_bytes r) % 2 ^ 32) ++ remote_to_bytes r)),
    handshake_lem c r h,
  )
  endpoint_from_bytes-endpoint_to_bytes (relay_handshake r to) h = rw (
    ltb-suc-one (
        length (
          to_be_bytes 4 (length (remote_to_bytes r) % 2 ^ 32)
          ++ (remote_to_bytes r ++ id_to_bytes to))),
    relay_handshake_lem c r to h,
  )
  endpoint_from_bytes-endpoint_to_bytes (relay_data from to bytes) h = rw (
    ltb-suc-one (length (id_to_bytes from ++ (id_to_bytes to ++ bytes))),
    relay_data_lem from to bytes h.0 h.1,
  )
