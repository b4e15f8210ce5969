-- ===== src/Keys/Keypair.antt =====
-- src/keys.rs: `KeyType` and `Keypair`.
use chamomile.Prelude.{
  ℕ, ◌+◌, Bool, false, [], ◌∷◌, ◌++◌, ◌==◌, not, ltb, length, take, drop, byte_at, replicate,
  if◌then◌else◌,
}
use chamomile.Prelude.Bytes.{Bytes}
use chamomile.Prelude.Result.{Result, ok, err, reject, ok_or, ◌>>=◌, ◌>>◌}
use chamomile.Types.Ids.{PeerId}
use chamomile.Keys.Crypto.{Crypto}

pub data KeyType : Type 0 where
  ed25519 lattice no_key : KeyType

unfoldable pub key_to_byte : KeyType → ℕ
key_to_byte ed25519 = 1
key_to_byte lattice = 2
key_to_byte no_key = 0

unfoldable pub key_from_byte : ℕ → Result KeyType
key_from_byte i =
    if i == 0
    then ok no_key
    else if i == 1
    then ok ed25519
    else if i == 2
    then ok lattice
    else err "key type failure."

pub record Keypair : Type 0 where
  pub key : KeyType
  pub sk : Bytes
  pub pk : Bytes

module _ (c : Crypto) where
  unfoldable pub pk_len : KeyType → ℕ
  pk_len ed25519 = c.public_key_length
  pk_len lattice = 0
  pk_len no_key = 0

  unfoldable pub psk_len : KeyType → ℕ
  psk_len ed25519 = c.secret_key_length
  psk_len lattice = 0
  psk_len no_key = 0

  unfoldable pub sign_len : KeyType → ℕ
  sign_len ed25519 = c.signature_length
  sign_len lattice = 0
  sign_len no_key = 0

  unfoldable pub dh_pk_len : KeyType → ℕ
  dh_pk_len ed25519 = 32
  dh_pk_len lattice = 0
  dh_pk_len no_key = 0

  -- `KeyType::sign`, with the error that `Keypair::sign` gives it
  unfoldable pub key_sign : KeyType → Keypair → Bytes → Result Bytes
  key_sign ed25519 pair msg = ok_or (c.ed_sign pair.sk pair.pk msg) "keypair sign failure."
  key_sign lattice pair msg = ok []
  key_sign no_key pair msg = ok []

  unfoldable pub keypair_sign : Keypair → Bytes → Result Bytes
  unfolding key_sign
  keypair_sign pair msg = key_sign pair.key pair msg

  -- `KeyType::verify`: a failure, or the answer
  unfoldable pub key_verify : KeyType → Bytes → Bytes → Bytes → Result Bool
  key_verify ed25519 pk msg sign = ok_or (c.ed_verify pk msg sign) "ed25519 from bytes failure."
  key_verify lattice pk msg sign = ok false
  key_verify no_key pk msg sign = ok false

  -- `KeyType::dh`
  unfoldable pub key_dh : KeyType → Bytes → Bytes → Result Bytes
  key_dh ed25519 sk pk = ok (c.diffie_hellman sk pk)
  key_dh lattice sk pk = ok (replicate 32 0)
  key_dh no_key sk pk = ok (replicate 32 0)

  -- `Keypair::from_bytes`: only the type and the public key
  unfoldable pub keypair_from_bytes : Bytes → Result Keypair
  keypair_from_bytes bytes = do
    reject (ltb (length bytes) 1) "keypair length failure."
    key ← key_from_byte (byte_at bytes 0)
    reject (not (length bytes == 1 + pk_len key)) "keypair from bytes failure."
    ok (record { key = key; sk = []; pk = drop 1 bytes })

  unfoldable pub keypair_from_db_bytes : Bytes → Result Keypair
  keypair_from_db_bytes bytes = do
    reject (ltb (length bytes) 1) "keypair from db bytes failure."
    key ← key_from_byte (byte_at bytes 0)
    reject (not (length bytes == 1 + pk_len key + psk_len key)) "keypair from db bytes failure."
    ok (record {
      key = key;
      sk = take (psk_len key) (drop 1 bytes);
      pk = drop (1 + psk_len key) bytes;
    })

  -- `Keypair::peer_id`: the hash of the public key
  unfoldable pub peer_id : Keypair → PeerId
  peer_id pair = record { raw = c.blake3 pair.pk }

  unfoldable pub keypair_from_pk : KeyType → Bytes → Result Keypair
  keypair_from_pk key bytes =
      if length bytes == pk_len key
      then ok (record { key = key; sk = []; pk = bytes })
      else err "keypair from pk failure."

unfoldable pub keypair_to_bytes : Keypair → Bytes
keypair_to_bytes pair = key_to_byte pair.key ∷ pair.pk

unfoldable pub keypair_to_db_bytes : Keypair → Bytes
keypair_to_db_bytes pair = key_to_byte pair.key ∷ (pair.sk ++ pair.pk)

unfoldable pub public : Keypair → Keypair
public pair = record { key = pair.key; sk = []; pk = pair.pk }
