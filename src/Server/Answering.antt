-- ===== src/Server/Answering.antt =====
-- src/server.rs: what becomes of a connect message from outside.
use chamomile.Prelude.{ℕ, true, false, Option, none, some, ◌≡◌, ◌⊎◌}
use chamomile.Prelude.Bytes.{Bytes}
use chamomile.Prelude.Result.{ok}
use chamomile.Types.Peer.{Peer}
use chamomile.Types.Message.{ReceiveMessage, stable_connect_delivery, delivery_split}
use chamomile.Store.Buffer.{add_connect, get_tmp_session}
use chamomile.Store.PeerList
use chamomile.Store.PeerList.{Senders}
use chamomile.Session.State.{SessionMessage, Global, outside, to_session}
use chamomile.Server.State.{Server, Serve, told}
use chamomile.Server.Outside.{is_self}
use chamomile.Server.Connecting.{waits, task, with_buffer}

module _ (g : Global) (tid : ℕ) (to : Peer) (bytes : Bytes) where
  -- who the node knows for the peer: its own session, or that of a closest peer
  abbrev known : Server → Option Senders
  known s = PeerList.get g.ids g.sockets to.id s.peers

  -- only another, closest peer is known
  abbrev IsFar : Server → Senders → Type 0
  IsFar s found = (is_self g to.id ≡ false) × (known s ≡ some found) × (found.is_it ≡ false)

  -- The peer is this node, or the node knows nobody for it, and the failure is reported; or the node is
  -- connected with the peer, whose session gets the message; or it knows only a closest peer, and then
  -- the session that waits for the peer in the buffer gets the message, or the message waits behind
  -- others for the peer, or it is the first to wait and a task is started that connects to the peer.
  pub data IsAnswered (s : Server) : Server → Type 0 where
    reported :
        (is_self g to.id ≡ true) ⊎ (known s ≡ none)
        → IsAnswered s (
            told
              (outside (
                ReceiveMessage.delivery stable_connect_delivery tid false
                  (delivery_split bytes g.delivery_length)))
              s)
    handed :
        (found : Senders)
        → is_self g to.id ≡ false
        → known s ≡ some found
        → found.is_it ≡ true
        → IsAnswered s (told (to_session found.session (SessionMessage.stable_connect tid bytes)) s)
    handed_tmp :
        (found : Senders) (sender : ℕ)
        → IsFar s found
        → get_tmp_session to.id s.buffer ≡ some sender
        → IsAnswered s (told (to_session sender (SessionMessage.stable_connect tid bytes)) s)
    queued :
        (found : Senders)
        → IsFar s found
        → get_tmp_session to.id s.buffer ≡ none
        → waits to.id s.buffer ≡ true
        → IsAnswered s (with_buffer (add_connect to.id tid bytes s.buffer).1 s)
    started :
        (found : Senders)
        → IsFar s found
        → get_tmp_session to.id s.buffer ≡ none
        → waits to.id s.buffer ≡ false
        → IsAnswered s (
            told
              (task g tid to bytes found.session)
              (with_buffer (add_connect to.id tid bytes s.buffer).1 s))

  -- an action that goes well and answers the message
  abbrev Answers : Serve Unit → Server → Type 0
  Answers m s = ((m s).0 ≡ ok tt) × IsAnswered s (m s).1
