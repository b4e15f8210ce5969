-- ===== src/Server/Invariant/Both.antt =====
-- src/server.rs: both loops of the server, their messages in any order.
use chamomile.Prelude.{Bool, List, [], ◌∷◌, ◌≡◌, ◌⊎◌}
use chamomile.Prelude.Act.{ignore, pure, ◌>>◌}
use chamomile.Prelude.Keeps.{Keeps}
use chamomile.Types.Message.{SendMessage}
use chamomile.Session.State.{Global}
use chamomile.Server.State.{Server, Serve}
use chamomile.Store.PeerList.{PeerList}
use chamomile.Server.Incoming.{TransportRecvMessage, Event, trans, handle_event}
use chamomile.Server.Outside.{handle_send}
use chamomile.Server.Invariant.Incoming.{CameIn}

-- what one of the loops takes next
pub data Input : Type 0 where
  event : Event → Input
  message : SendMessage → Input

-- the connection is one of the inputs
abbrev pub Among : List Input → TransportRecvMessage → Type 0
Among [] m = ⊥
Among (i ∷ inputs) m = (i ≡ event (trans m)) ⊎ Among inputs m

module _ (g : Global) (recv_data : Bool) where
  unfoldable pub handle_input : Input → Serve Unit
  unfolding handle_event handle_send
  handle_input (event e) = handle_event g recv_data e
  handle_input (message msg) = handle_send g msg

  unfoldable pub serve : List Input → Serve Unit
  unfolding handle_input
  serve [] = pure tt
  serve (i ∷ inputs) = ignore (handle_input i) >> serve inputs

  module _ (came : TransportRecvMessage → Type 0) (start : PeerList) where
    -- the connection of an input came
    abbrev pub CameBy : Input → Type 0
    CameBy (event e) = CameIn g came start recv_data e
    CameBy (message msg) = Unit
