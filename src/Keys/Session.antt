-- ===== src/Keys/Session.antt =====
-- src/keys.rs: `SessionKey`. The key of a cipher is the cipher; what the source draws at random, the
-- secret and the nonce of a session, is an argument.
use chamomile.Prelude.{
  ◌+◌, Bool, true, false, Option, none, some, [], ◌++◌, ◌==◌, ◌||◌, not, length, take, drop,
  replicate, if◌then◌else◌,
}
use chamomile.Prelude.Bytes.{Bytes}
use chamomile.Prelude.Result.{Result, ok, err, ok_or, ◌>>=◌}
use chamomile.Keys.Crypto.{Crypto}
use chamomile.Keys.Keypair.{
  KeyType, ed25519, lattice, no_key, Keypair, pk_len, dh_pk_len, sign_len, keypair_sign, key_verify,
  key_dh,
}

pub record SessionKey : Type 0 where
  pub key : KeyType
  pub sk : Bytes
  pub pk : Bytes
  pub sign : Bytes
  pub is_ok : Bool
  pub cipher : Bytes
  pub nonce : Bytes

-- What `rand::thread_rng` gives for one session key.
pub record Drawn : Type 0 where
  pub secret : Bytes
  pub nonce : Bytes

module _ (c : Crypto) where
  -- `KeyType::session_key`
  unfoldable pub session_key : KeyType → Keypair → Drawn → Result SessionKey
  session_key ed25519 self_keypair drawn = do
    let dh_pk = c.dh_public drawn.secret
    sign ← keypair_sign c self_keypair dh_pk
    ok (record {
      key = ed25519;
      sk = drawn.secret;
      pk = dh_pk;
      sign = sign;
      is_ok = false;
      cipher = replicate 32 0;
      nonce = drawn.nonce;
    })
  session_key lattice self_keypair drawn = err "session key failure."
  session_key no_key self_keypair drawn = err "session key failure."

  unfoldable pub generate_session_key : Keypair → Drawn → Result SessionKey
  generate_session_key pair drawn = session_key pair.key pair drawn

  -- What `complete` sets once the signature holds.
  unfoldable pub agree : SessionKey → Bytes → Bytes → Bool × SessionKey
  agree s tmp_pk tmp_nonce = elim (key_dh c s.key s.sk tmp_pk) [
    | ok shared ↦ (true, record s { cipher = c.blake3 shared; nonce = tmp_nonce; is_ok = true })
    | err e ↦ (false, s)
  ]

  -- `if let Ok(true) = …`
  unfoldable pub is_true : Result Bool → Bool
  is_true (ok b) = b
  is_true (err e) = false

  -- `SessionKey::complete`: whether the remote's key is genuine, and the session
  unfoldable pub complete : SessionKey → Bytes → Bytes → Bool × SessionKey
  unfolding agree is_true
  complete s remote_pk remote_dh =
      let tmp_pk = take (dh_pk_len c s.key) remote_dh in
      let tmp_sign_nonce = drop (dh_pk_len c s.key) remote_dh in
      let tmp_sign = take (sign_len c s.key) tmp_sign_nonce in
      let tmp_nonce = drop (sign_len c s.key) tmp_sign_nonce in
      if not (pk_len c s.key == length remote_pk)
        || not (dh_pk_len c s.key + sign_len c s.key + 12 == length remote_dh)
      then (false, s)
      else if is_true (key_verify c s.key remote_pk tmp_pk tmp_sign)
      then agree s tmp_pk tmp_nonce
      else (false, s)

  -- `Keypair::complete_session_key`
  unfoldable pub complete_session_key : Keypair → Drawn → Keypair → Bytes → Option SessionKey
  complete_session_key pair drawn remote dh_bytes = elim (generate_session_key pair drawn) [
    | ok s ↦ (let (done, s') = complete s remote.pk dh_bytes in if done then some s' else none)
    | err e ↦ none
  ]

  -- `unwrap_or(vec![])`
  unfoldable pub encrypt : SessionKey → Bytes → Bytes
  encrypt s msg = elim (c.aes_encrypt s.cipher s.nonce msg) [ some sealed ↦ sealed | none ↦ [] ]

  unfoldable pub decrypt : SessionKey → Bytes → Result Bytes
  decrypt s msg = ok_or (c.aes_decrypt s.cipher s.nonce msg) "decrypt failure."

unfoldable pub out_bytes : SessionKey → Bytes
out_bytes s = s.pk ++ (s.sign ++ s.nonce)
