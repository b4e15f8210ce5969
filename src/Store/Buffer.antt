-- ===== src/Store/Buffer.antt =====
-- src/buffer.rs: what waits for a connection. The first component of an entry says that the timer
-- has seen it.
use chamomile.Prelude.{ℕ, Bool, true, false, Option, none, some, List, [], ◌∷◌, ◌++◌, if◌then◌else◌}
use chamomile.Prelude.Bytes.{Bytes}
use chamomile.Prelude.Map
use chamomile.Prelude.Map.{Map}
use chamomile.Prelude.Maybe.{map_option}
use chamomile.Types.Ids.{PeerId, PeerId-discrete}
use chamomile.Types.Socket.{SocketAddr, SocketAddr-discrete}
use chamomile.Types.Peer.{Peer}
use chamomile.Kad.Double.{KadValue}

-- `Vec<(u64, Vec<u8>)>`: delivery ids with their data
abbrev pub Queue : Type 0
Queue = List (ℕ × Bytes)

pub record Tmp : Type 0 where
  pub value : KadValue
  pub is_direct : Bool

pub record Buffer : Type 0 where
  pub dhts : Map SocketAddr (Bool × Unit {0})
  pub connects : Map PeerId (Bool × Queue)
  pub results : Map PeerId (Bool × Queue)
  pub tmps : Map PeerId (Bool × Tmp)

-- `Buffer::init`
abbrev pub init : Buffer
init = record { dhts = []; connects = []; results = []; tmps = [] }

unfoldable pub add_dht : SocketAddr → Buffer → Bool × Buffer
add_dht ip b =
    if Map.contains_key SocketAddr-discrete ip b.dhts
    then (false, b)
    else (true, record b { dhts = Map.insert SocketAddr-discrete ip (false, tt) b.dhts })

unfoldable pub remove_dht : SocketAddr → Buffer → Buffer
remove_dht ip b = record b { dhts = Map.remove SocketAddr-discrete ip b.dhts }

-- `add_connect` and `add_result` on their map and its entry of the peer: whether the peer had a
-- queue, and the map
unfoldable pub enqueue_on :
    Option (Bool × Queue)
    → PeerId
    → ℕ
    → Bytes
    → Map PeerId (Bool × Queue)
    → Bool × Map PeerId (Bool × Queue)
enqueue_on (some (seen, queue)) p tid bytes m =
    (true, Map.insert PeerId-discrete p (seen, queue ++ (tid, bytes) ∷ []) m)
enqueue_on none p tid bytes m = (false, Map.insert PeerId-discrete p (false, (tid, bytes) ∷ []) m)

unfoldable pub enqueue :
    PeerId → ℕ → Bytes → Map PeerId (Bool × Queue) → Bool × Map PeerId (Bool × Queue)
unfolding enqueue_on
enqueue p tid bytes m = enqueue_on (Map.get PeerId-discrete p m) p tid bytes m

-- `map(|v| v.1).unwrap_or(vec![])`
unfoldable pub queue_of : Option (Bool × Queue) → Queue
queue_of none = []
queue_of (some (seen, queue)) = queue

unfoldable pub add_connect : PeerId → ℕ → Bytes → Buffer → Bool × Buffer
add_connect p tid bytes b =
    let (had, connects) = enqueue p tid bytes b.connects in (had, record b { connects = connects })

unfoldable pub remove_connect : PeerId → Buffer → Queue × Buffer
unfolding queue_of
remove_connect p b = (
  queue_of (Map.get PeerId-discrete p b.connects),
  record b { connects = Map.remove PeerId-discrete p b.connects },
)

unfoldable pub add_result : PeerId → ℕ → Bytes → Buffer → Bool × Buffer
add_result p tid bytes b =
    let (had, results) = enqueue p tid bytes b.results in (had, record b { results = results })

unfoldable pub remove_result : PeerId → Buffer → Queue × Buffer
unfolding queue_of
remove_result p b = (
  queue_of (Map.get PeerId-discrete p b.results),
  record b { results = Map.remove PeerId-discrete p b.results },
)

unfoldable pub remove_stable : PeerId → Buffer → Buffer
remove_stable p b = record b {
  connects = Map.remove PeerId-discrete p b.connects;
  results = Map.remove PeerId-discrete p b.results;
}

unfoldable pub get_tmp_session : PeerId → Buffer → Option ℕ
get_tmp_session p b =
    map_option (λ (e : Bool × Tmp). e.1.value.session) (Map.get PeerId-discrete p b.tmps)

unfoldable pub get_tmp_stream : PeerId → Buffer → Option ℕ
get_tmp_stream p b =
    map_option (λ (e : Bool × Tmp). e.1.value.stream) (Map.get PeerId-discrete p b.tmps)

unfoldable pub add_tmp : PeerId → KadValue → Bool → Buffer → Buffer
add_tmp p value is_d b = record b {
  tmps = Map.insert PeerId-discrete p (false, record { value = value; is_direct = is_d }) b.tmps;
}

unfoldable pub with_peer : Peer → Tmp → Tmp
with_peer peer t = record t { value = record t.value { peer = peer } }

unfoldable pub update_peer : PeerId → Peer → Buffer → Buffer
unfolding with_peer
update_peer p peer b = elim (Map.get PeerId-discrete p b.tmps) [
  | some (seen, t) ↦ record b {
    tmps = Map.insert PeerId-discrete p (seen, with_peer peer t) b.tmps;
  }
  | none ↦ b
]

unfoldable pub remove_tmp : PeerId → Buffer → Option Tmp × Buffer
remove_tmp p b = (
  map_option (λ (e : Bool × Tmp). e.1) (Map.get PeerId-discrete p b.tmps),
  record b { tmps = Map.remove PeerId-discrete p b.tmps },
)

module _ {K V : Type 0} where
  -- `for (k, (t, _)) in m.iter_mut()`: the entries that were seen before
  unfoldable pub seen_before : Map K (Bool × V) → List (K × V)
  seen_before [] = []
  seen_before ((k, (seen, v)) ∷ m) = if seen then (k, v) ∷ seen_before m else seen_before m

  -- and the mark that it leaves on the others
  unfoldable pub mark : Map K (Bool × V) → Map K (Bool × V)
  mark [] = []
  mark ((k, (seen, v)) ∷ m) = (k, (true, v)) ∷ mark m

  unfoldable pub remove_all : Discrete K → List (K × V) → Map K (Bool × V) → Map K (Bool × V)
  remove_all dec [] m = m
  remove_all dec ((k, v) ∷ gone) m = remove_all dec gone (Map.remove dec k m)

  -- one map of `timer_clear`
  unfoldable pub sweep : Discrete K → Map K (Bool × V) → Map K (Bool × V)
  sweep dec m = remove_all dec (seen_before m) (mark m)

-- the channels of the sessions that `timer_clear` closes
unfoldable pub closed_sessions : List (PeerId × Tmp) → List ℕ
closed_sessions [] = []
closed_sessions ((p, t) ∷ gone) = t.value.session ∷ closed_sessions gone

-- `timer_clear`: the sessions that it sends `Close` to, and the buffer
unfoldable pub timer_clear : Buffer → List ℕ × Buffer
timer_clear b = (
  closed_sessions (seen_before b.tmps),
  record {
    dhts = sweep SocketAddr-discrete b.dhts;
    connects = sweep PeerId-discrete b.connects;
    results = sweep PeerId-discrete b.results;
    tmps = sweep PeerId-discrete b.tmps;
  },
)
