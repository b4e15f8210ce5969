-- ===== src/Keys/Crypto.antt =====
-- The crates ed25519-dalek, x25519-dalek, blake3 and aes-gcm, which src/keys.rs calls.
use chamomile.Prelude.{ℕ, Bool, true, Option, some, ◌≡◌, length}
use chamomile.Prelude.Bytes.{Bytes}

pub record Crypto : Type 0 where
  -- PUBLIC_KEY_LENGTH, SECRET_KEY_LENGTH and SIGNATURE_LENGTH
  pub public_key_length : ℕ
  pub secret_key_length : ℕ
  pub signature_length : ℕ
  -- the public half that belongs to a secret one
  pub ed_public : Bytes → Bytes
  -- `Keypair::from_bytes` of the secret and the public half, then `sign`
  pub ed_sign : Bytes → Bytes → Bytes → Option Bytes
  -- `PublicKey::from_bytes` and `Signature::try_from`, then `verify`: key, message, signature
  pub ed_verify : Bytes → Bytes → Bytes → Option Bool
  -- `PublicKey::from(&secret)` and `diffie_hellman` of x25519
  pub dh_public : Bytes → Bytes
  pub diffie_hellman : Bytes → Bytes → Bytes
  pub blake3 : Bytes → Bytes
  -- AES-256-GCM: key, nonce, message
  pub aes_encrypt : Bytes → Bytes → Bytes → Option Bytes
  pub aes_decrypt : Bytes → Bytes → Bytes → Option Bytes

-- What the crates document and the handshake relies on.
pub record Documented (c : Crypto) : Type 0 where
  -- A signature has its length, and verifies under the public key that belongs to its secret one.
  pub sign_length :
      (sk pk msg sign : Bytes) → c.ed_sign sk pk msg ≡ some sign → length sign ≡ c.signature_length
  pub sign_verifies :
      (sk pk msg sign : Bytes)
      → pk ≡ c.ed_public sk
      → c.ed_sign sk pk msg ≡ some sign
      → c.ed_verify pk msg sign ≡ some true
  pub public_length : (sk : Bytes) → length (c.dh_public sk) ≡ 32
  -- Both sides of a key exchange compute one secret.
  pub shared :
      (a b : Bytes) → c.diffie_hellman a (c.dh_public b) ≡ c.diffie_hellman b (c.dh_public a)
  -- What was encrypted decrypts under the same key and nonce.
  pub decrypts :
      (key nonce msg sealed : Bytes)
      → c.aes_encrypt key nonce msg ≡ some sealed
      → c.aes_decrypt key nonce sealed ≡ some msg
