-- ===== src/Store/Global.antt =====
-- src/global.rs: the methods of `Global` that move a peer between the buffer and the peer list.
use chamomile.Prelude.{ℕ, Bool, Option, none, some, if◌then◌else◌}
use chamomile.Prelude.Result.{Result, ok, err}
use chamomile.Types.Ids.{PeerId}
use chamomile.Types.Socket.{SocketAddr}
use chamomile.Kad.Distance.{Key}
use chamomile.Kad.Double.{KadValue}
use chamomile.Store.Buffer
use chamomile.Store.Buffer.{Buffer, Queue, Tmp}
use chamomile.Store.PeerList
use chamomile.Store.PeerList.{PeerList}

-- What `Global` shares between sessions behind its locks.
pub record Shared : Type 0 where
  pub buffer : Buffer
  pub peers : PeerList

unfoldable pub add_tmp : PeerId → KadValue → Bool → Shared → Queue × Shared
add_tmp p k d s =
    let (stables, b) = Buffer.remove_connect p s.buffer in
    (stables, record s { buffer = Buffer.add_tmp p k d b })

unfoldable pub add_all_tmp : PeerId → KadValue → Bool → Shared → Queue × Queue × Shared
add_all_tmp p kv is_direct s =
    let (connects, b) = Buffer.remove_connect p s.buffer in
    let (results, b') = Buffer.remove_result p b in
    (connects, results, record s { buffer = Buffer.add_tmp p kv is_direct b' })

module _ (ids : Key PeerId) (sockets : Key SocketAddr) where
  -- the second half of `upgrade`: what was told to close, whether it went well, and the peers
  unfoldable pub upgrade_with :
      PeerId → Option Tmp → PeerList → Option ℕ × Result (Unit {0}) × PeerList
  upgrade_with p (some t) l =
      let (old, l') = PeerList.add_stable p t.value t.is_direct l in (old, ok tt, l')
  upgrade_with p none l = let (r, l') = PeerList.dht_to_stable ids sockets p l in (none, r, l')

  unfoldable pub upgrade : PeerId → Shared → Option ℕ × Result (Unit {0}) × Shared
  unfolding upgrade_with
  upgrade p s =
      let (v, b) = Buffer.remove_tmp p s.buffer in
      let (old, r, l) = upgrade_with p v s.peers in (old, r, record { buffer = b; peers = l })

  unfoldable pub tmp_into_dht : ℕ → Option Tmp → PeerList → Result (Unit {0}) × PeerList
  tmp_into_dht rng none l = (err "missing buffer", l)
  tmp_into_dht rng (some t) l =
      let (added, l') = PeerList.add_dht ids sockets rng t.value l in
      if t.is_direct
      then (if added then (ok tt, l') else (err "missing buffer", l'))
      else (err "missing buffer", l)

  unfoldable pub tmp_to_dht : ℕ → PeerId → Shared → Result (Unit {0}) × Shared
  unfolding tmp_into_dht
  tmp_to_dht rng p s =
      let (v, b) = Buffer.remove_tmp p s.buffer in
      let (r, l) = tmp_into_dht rng v s.peers in (r, record { buffer = b; peers = l })

  unfoldable pub stable_to_dht : ℕ → PeerId → Shared → Result (Unit {0}) × Shared
  stable_to_dht rng p s =
      let b = Buffer.remove_stable p (Buffer.remove_tmp p s.buffer).1 in
      let (r, l) = PeerList.stable_to_dht ids sockets rng p s.peers in
      (r, record { buffer = b; peers = l })
