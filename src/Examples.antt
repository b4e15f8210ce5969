-- ===== src/Examples.antt =====
-- Concrete values at which the theorems are applied.
pub mod Trees
pub mod Coding
pub mod Sessions
pub mod Stores
pub mod Servers
pub mod Transports
pub mod Texts
use chamomile.Prelude.{
  ℕ, zero, suc, ◌%◌, ◌/◌, Bool, true, false, ◌==◌, Option, none, some, List, [], ◌∷◌, ◌++◌, ◌≡◌,
  refl, sym, ap, replicate, length,
}
use chamomile.Prelude.Bytes.{Bytes}
use chamomile.Types.Ids.{PeerId, tcp}
use chamomile.Types.Socket.{v4, SocketAddr}
use chamomile.Types.Peer.{Peer}
use chamomile.Keys.Crypto.{Crypto, Documented}
use chamomile.Keys.Keypair.{Keypair, ed25519}

-- A signature of two bytes and a cipher that puts one byte in front of the message.
abbrev pub unseal : Bytes → Option Bytes
unseal [] = none
unseal (b ∷ msg) = some msg

abbrev pub toy : Crypto
toy = record {
  public_key_length = 2;
  secret_key_length = 2;
  signature_length = 2;
  ed_public = λ sk. sk;
  ed_sign = λ sk pk msg. some (7 ∷ 8 ∷ []);
  ed_verify = λ pk msg sign. some true;
  dh_public = λ sk. replicate 32 1;
  diffie_hellman = λ sk pk. replicate 32 2;
  blake3 = λ bytes. replicate 32 3;
  aes_encrypt = λ key nonce msg. some (9 ∷ msg);
  aes_decrypt = λ key nonce sealed. unseal sealed;
}

some_bytes : Option Bytes → Bytes
some_bytes none = []
some_bytes (some bytes) = bytes

pub toy-Documented : Documented toy
unfolding some_bytes
toy-Documented = record {
  sign_length = λ sk pk msg sign e. ap (λ o. length (some_bytes o)) (sym e);
  sign_verifies = λ sk pk msg sign own e. refl;
  public_length = λ sk. refl;
  shared = λ a b. refl;
  decrypts = λ key nonce msg sealed e. ap (λ o. unseal (some_bytes o)) (sym e);
}

abbrev pub pair : ℕ → Keypair
pair n = record { key = ed25519; sk = n ∷ n ∷ []; pk = n ∷ n ∷ [] }

abbrev pub id_of : ℕ → PeerId
id_of n = record { raw = n ∷ replicate 31 0 }

abbrev pub socket_of : ℕ → SocketAddr
socket_of n = record { ip = v4 (10 ∷ 0 ∷ 0 ∷ n ∷ []); port = 7364 }

abbrev pub peer_of : ℕ → Peer
peer_of n = record { id = id_of n; socket = socket_of n; transport = tcp; is_pub = true }
