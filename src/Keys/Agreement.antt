-- ===== src/Keys/Agreement.antt =====
-- src/keys.rs: the handshake of two session keys.
use chamomile.Prelude.{
  ◌+◌, true, some, ◌++◌, ◌≡◌, refl, sym, ap, ◌∙◌, arith, eq→==, length, length-append,
  take-append_of, drop-append_of, Option-cases, inl, inr,
}
use chamomile.Prelude.Bytes.{Bytes}
use chamomile.Prelude.Result.{ok}
use chamomile.Keys.Crypto.{Crypto, Documented}
use chamomile.Keys.Keypair.{
  ed25519, Keypair, pk_len, dh_pk_len, sign_len, keypair_sign, key_verify, key_dh, public,
}
use chamomile.Keys.Session.{
  SessionKey, Drawn, session_key, generate_session_key, complete, complete_session_key, encrypt,
  decrypt, out_bytes,
}

module _ (c : Crypto) (d : Documented c) where
  -- A session key as `generate_session_key` makes it, for an Ed25519 pair.
  pub record IsFresh (pair : Keypair) (drawn : Drawn) (s : SessionKey) : Type 0 where
    pub key : s.key ≡ ed25519
    pub sk : s.sk ≡ drawn.secret
    pub pk : s.pk ≡ c.dh_public drawn.secret
    pub signed : c.ed_sign pair.sk pair.pk s.pk ≡ some s.sign
    pub nonce : s.nonce ≡ drawn.nonce

  -- What the other side accepts: the bytes of a key that the owner of `pk` signed.
  complete_lem :
      (s : SessionKey) (pair : Keypair) (tmp_pk sign nonce : Bytes)
      → s.key ≡ ed25519
      → pair.pk ≡ c.ed_public pair.sk
      → length pair.pk ≡ c.public_key_length
      → length tmp_pk ≡ 32
      → length nonce ≡ 12
      → c.ed_sign pair.sk pair.pk tmp_pk ≡ some sign
      → complete c s pair.pk (tmp_pk ++ (sign ++ nonce)) ≡ (
        true,
        record s { cipher = c.blake3 (c.diffie_hellman s.sk tmp_pk); nonce = nonce; is_ok = true },
      )
  unfolding complete key_verify key_dh pk_len dh_pk_len sign_len
  complete_lem s pair tmp_pk sign nonce k pub_ok n m l signed =
      let sl : length sign ≡ c.signature_length =
        d.sign_length pair.sk pair.pk tmp_pk sign signed in
      rw (
        k,
        take-append_of 32 tmp_pk (sign ++ nonce) m,
        drop-append_of 32 tmp_pk (sign ++ nonce) m,
        take-append_of c.signature_length sign nonce sl,
        drop-append_of c.signature_length sign nonce sl,
        eq→== c.public_key_length (length pair.pk) (sym n),
        eq→== (32 + c.signature_length + 12) (length (tmp_pk ++ (sign ++ nonce)))
            (omega (arith, length-append tmp_pk (sign ++ nonce), length-append sign nonce)),
        d.sign_verifies pair.sk pair.pk tmp_pk sign pub_ok signed,
      )

  generate-IsFresh :
      (pair : Keypair) (drawn : Drawn) (s : SessionKey)
      → pair.key ≡ ed25519
      → generate_session_key c pair drawn ≡ ok s
      → IsFresh pair drawn s
  unfolding generate_session_key session_key keypair_sign
  generate-IsFresh pair drawn s k e =
      elim (Option-cases (c.ed_sign pair.sk pair.pk (c.dh_public drawn.secret))) [
        | inl miss ↦ absurd (ground arith)
        | inr (sign, hit) ↦ record {
          key = ground arith;
          sk = ground arith;
          pk = ground arith;
          signed = ground arith;
          nonce = ground arith;
        }
      ]

  -- Both ends of a handshake hold one key: what one side encrypts the other decrypts.
  abbrev pub SameChannel : SessionKey → SessionKey → Type 0
  SameChannel s t =
      (s.cipher ≡ t.cipher) × (s.nonce ≡ t.nonce) × (s.is_ok ≡ true) × (t.is_ok ≡ true)

  shared_secret :
      (a b : Keypair) (da db : Drawn) (sa sb : SessionKey)
      → IsFresh a da sa
      → IsFresh b db sb
      → c.diffie_hellman sa.sk sb.pk ≡ c.diffie_hellman sb.sk sa.pk
  shared_secret a b da db sa sb fa fb =
      rw (fa.sk, fb.pk, fb.sk, fa.pk) (d.shared da.secret db.secret)

  -- Two Ed25519 pairs, each a secret key with its public one, of the length that the crate gives
  -- it, shake hands, and the side that asks drew a nonce of 12 bytes: the side that answers
  -- completes a fresh key with the bytes of the side that asks, and the bytes that it sends back
  -- complete the key of that side. Then both hold one cipher and one nonce, if the crates do what
  -- they document.
  pub handshake_agrees :
      (a b : Keypair) (da db : Drawn) (sa sb : SessionKey)
      → a.key ≡ ed25519
      → b.key ≡ ed25519
      → a.pk ≡ c.ed_public a.sk
      → b.pk ≡ c.ed_public b.sk
      → length a.pk ≡ c.public_key_length
      → length b.pk ≡ c.public_key_length
      → length da.nonce ≡ 12
      → generate_session_key c a da ≡ ok sa
      → generate_session_key c b db ≡ ok sb
      → (sb' sa' : SessionKey) × (complete_session_key c b db (public a) (out_bytes sa) ≡ some sb')
        × (complete c sa (public b).pk (out_bytes sb') ≡ (true, sa'))
        × SameChannel sa' sb'
  unfolding complete_session_key out_bytes public
  handshake_agrees a b da db sa sb ka kb oa ob la lb na ga gb =
      let fa = generate-IsFresh a da sa ka ga in
      let fb = generate-IsFresh b db sb kb gb in
      let pa : length sa.pk ≡ 32 = ap length fa.pk ∙ d.public_length da.secret in
      let pb : length sb.pk ≡ 32 = ap length fb.pk ∙ d.public_length db.secret in
      let nn : length sa.nonce ≡ 12 = ap length fa.nonce ∙ na in
      (
        record sb {
          cipher = c.blake3 (c.diffie_hellman sb.sk sa.pk);
          nonce = sa.nonce;
          is_ok = true;
        },
        record sa {
          cipher = c.blake3 (c.diffie_hellman sa.sk sb.pk);
          nonce = sa.nonce;
          is_ok = true;
        },
        rw (
          gb,
          complete_session_key,
          complete_lem sb a sa.pk sa.sign sa.nonce fb.key oa la pa nn fa.signed,
        ),
        complete_lem sa b sb.pk sb.sign sa.nonce fa.key ob lb pb nn fb.signed,
        (ap c.blake3 (shared_secret a b da db sa sb fa fb), refl, refl, refl),
      )

  -- Over one channel, what one side encrypts the other decrypts, where the cipher does encrypt, if
  -- the crates do what they document.
  pub decrypt-encrypt :
      (s t : SessionKey) (msg sealed : Bytes)
      → SameChannel s t
      → c.aes_encrypt s.cipher s.nonce msg ≡ some sealed
      → decrypt c t (encrypt c s msg) ≡ ok msg
  unfolding encrypt decrypt
  decrypt-encrypt s t msg sealed h e =
      rw (e, encrypt, ← h.0, ← h.1, d.decrypts s.cipher s.nonce msg sealed e)
