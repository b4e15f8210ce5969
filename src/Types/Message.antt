-- ===== src/Types/Message.antt =====
-- types/src/message.rs, `Broadcast` of types/src/types.rs and `delivery_split!` of types/src/lib.rs.
use chamomile.Prelude.{ℕ, Bool, List, [], ◌==◌, ltb, length, take, if◌then◌else◌}
use chamomile.Prelude.Bytes.{Bytes}
use chamomile.Types.Ids.{PeerId}
use chamomile.Types.Peer.{Peer}

pub data DeliveryType : Type 0 where
  data_delivery stable_connect_delivery stable_result_delivery : DeliveryType

-- A stream is a request, an answer, or the channels of one that is open, by their number.
pub data StreamType : Type 0 where
  req : Peer → StreamType
  res : Bool → StreamType
  opened : ℕ → StreamType

pub data ReceiveMessage : Type 0 where
  stable_connect : Peer → Bytes → ReceiveMessage
  stable_result : Peer → Bool → Bytes → ReceiveMessage
  result_connect : Peer → Bytes → ReceiveMessage
  stable_leave : PeerId → ReceiveMessage
  payload : PeerId → Bytes → ReceiveMessage
  stream : ℕ → StreamType → Bytes → ReceiveMessage
  delivery : DeliveryType → ℕ → Bool → Bytes → ReceiveMessage
  network_lost : ReceiveMessage

pub data Broadcast : Type 0 where
  gossip stable_all : Broadcast

pub data StateRequest : Type 0 where
  stable dht seed : StateRequest

pub data StateResponse : Type 0 where
  stable : List (PeerId × Bool) → StateResponse
  dht : List PeerId → StateResponse
  seed : List Peer → StateResponse

pub data SendMessage : Type 0 where
  stable_result : ℕ → Peer → Bool → Bool → Bytes → SendMessage
  stable_connect : ℕ → Peer → Bytes → SendMessage
  stable_disconnect : PeerId → SendMessage
  connect : Peer → SendMessage
  disconnect : Peer → SendMessage
  payload : ℕ → PeerId → Bytes → SendMessage
  broadcast : Broadcast → Bytes → SendMessage
  stream : ℕ → StreamType → Bytes → SendMessage
  network_state : StateRequest → ℕ → SendMessage
  network_reboot : SendMessage

-- `delivery_split!`: the start of the data that a delivery reports back
unfoldable pub delivery_split : Bytes → ℕ → Bytes
delivery_split bytes len =
    if len == 0 then [] else if ltb (length bytes) len then bytes else take len bytes
