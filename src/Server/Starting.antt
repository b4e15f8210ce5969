-- ===== src/Server/Starting.antt =====
-- src/server.rs: the identity of a node that starts again.
use chamomile.Prelude.{Option, some, length, ◌≡◌, ap, ◌∙◌, arith, sym}
use chamomile.Prelude.Bytes.{Bytes}
use chamomile.Prelude.Result.{Result, ok, err}
use chamomile.Types.Socket.{SocketAddr}
use chamomile.Types.PeerText.{Printing}
use chamomile.Keys.Crypto.{Crypto}
use chamomile.Keys.Keypair.{
  Keypair, keypair_from_db_bytes, keypair_to_db_bytes, pk_len, psk_len, peer_id,
}
use chamomile.Keys.RoundTrip.{keypair_from_db_bytes-keypair_to_db_bytes}
use chamomile.Session.State.{Global}
use chamomile.Server.Start.{Config, stored_key, load_key, start}

stored_key-again :
    (c : Crypto) (r : Result Keypair) (generated other : Keypair) (file : Bytes)
    → length generated.pk ≡ pk_len c generated.key
    → length generated.sk ≡ psk_len c generated.key
    → (stored_key r generated).1 ≡ some file
    → (load_key c file other).0 ≡ (stored_key r generated).0
unfolding stored_key load_key
stored_key-again c (ok key) generated other file k h e = absurd (ground arith)
stored_key-again c (err x) generated other file k h e =
    let same : keypair_to_db_bytes generated ≡ file = ground arith in
    ap (λ l. (stored_key (keypair_from_db_bytes c l) other).0) (sym same)
    ∙ ap (λ r. (stored_key r other).0) (keypair_from_db_bytes-keypair_to_db_bytes c generated k h)

-- A node that found no key and wrote the one that it made, of the lengths of its type, has the same
-- id when it starts again on the file that it wrote, whatever key could be made then, and whatever
-- else has changed but the crates.
pub start_again :
    (p q : Printing) (config next : Config) (g h : Global) (key_bytes file : Bytes)
    (generated other : Keypair) (peers peers' : Option Bytes) (addr addr' : SocketAddr)
    → h.crypto ≡ g.crypto
    → length generated.pk ≡ pk_len g.crypto generated.key
    → length generated.sk ≡ psk_len g.crypto generated.key
    → (load_key g.crypto key_bytes generated).1 ≡ some file
    → (start q next file other peers' addr' h).0
      ≡ (start p config key_bytes generated peers addr g).0
unfolding start load_key
start_again p q config next g h key_bytes file generated other peers peers' addr addr' c pub_len
      sec_len e =
    ap (λ x. peer_id x (load_key x file other).0) c
    ∙ ap (peer_id g.crypto) (
        stored_key-again g.crypto (keypair_from_db_bytes g.crypto key_bytes) generated other file
          pub_len sec_len e)
