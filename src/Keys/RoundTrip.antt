-- ===== src/Keys/RoundTrip.antt =====
-- src/keys.rs: key pairs to bytes and back.
use chamomile.Prelude.{
  suc, ◌+◌, ◌∷◌, ◌++◌, ◌≡◌, refl, arith, eq→==, ltb-suc-one, length, length-append, take-append_of,
  drop-append_of, drop-add,
}
use chamomile.Prelude.Result.{ok}
use chamomile.Keys.Crypto.{Crypto}
use chamomile.Keys.Keypair.{
  KeyType, ed25519, lattice, no_key, Keypair, key_to_byte, key_from_byte, pk_len, psk_len,
  keypair_from_bytes, keypair_to_bytes, keypair_from_db_bytes, keypair_to_db_bytes, public,
}

-- A key type comes back from its byte.
pub key_from_byte-key_to_byte : (k : KeyType) → key_from_byte (key_to_byte k) ≡ ok k
unfolding key_from_byte key_to_byte
key_from_byte-key_to_byte ed25519 = refl
key_from_byte-key_to_byte lattice = refl
key_from_byte-key_to_byte no_key = refl

module _ (c : Crypto) (p : Keypair) (n : length p.pk ≡ pk_len c p.key) where
  -- A pair whose public key has the length of its type comes back from the bytes that a peer gets
  -- as its public half, without the secret.
  pub keypair_from_bytes-keypair_to_bytes :
      keypair_from_bytes c (keypair_to_bytes p) ≡ ok (public p)
  unfolding keypair_from_bytes keypair_to_bytes public
  keypair_from_bytes-keypair_to_bytes = rw (
    ltb-suc-one (length p.pk),
    key_from_byte-key_to_byte p.key,
    eq→== (suc (length p.pk)) (1 + pk_len c p.key) (omega arith),
  )

  -- A pair whose two keys have the lengths of its type comes back whole from the bytes kept on disk.
  pub keypair_from_db_bytes-keypair_to_db_bytes :
      length p.sk ≡ psk_len c p.key → keypair_from_db_bytes c (keypair_to_db_bytes p) ≡ ok p
  unfolding keypair_from_db_bytes keypair_to_db_bytes
  keypair_from_db_bytes-keypair_to_db_bytes m = rw (
    ltb-suc-one (length (p.sk ++ p.pk)),
    key_from_byte-key_to_byte p.key,
    eq→== (suc (length (p.sk ++ p.pk))) (1 + pk_len c p.key + psk_len c p.key)
        (omega (arith, length-append p.sk p.pk)),
    take-append_of (psk_len c p.key) p.sk p.pk m,
    drop-add 1 (psk_len c p.key) (key_to_byte p.key ∷ (p.sk ++ p.pk)),
    drop-append_of (psk_len c p.key) p.sk p.pk m,
  )
