-- ===== src/Store/Stables.antt =====
-- src/peer_list.rs: the stable peers, `add_stable` and the lookups.
use chamomile.Prelude.{Bool, true, false, Option, none, some, ◌≡◌, refl, equal, if◌then◌else◌}
use chamomile.Prelude.Map
use chamomile.Prelude.Maybe.{map_option}
use chamomile.Types.Ids.{PeerId, PeerId-discrete}
use chamomile.Types.Socket.{SocketAddr}
use chamomile.Kad.Distance.{Key}
use chamomile.Kad.Double.{KadValue}
use chamomile.Store.PeerList.{
  PeerList, Stable, senders, stable_get, replace_stable, add_stable, get, next_closest,
}

replace_stable_lem :
    (o : Option Stable) (p : PeerId) (stables : Map.Map PeerId Stable) (l : PeerList)
    → ((replace_stable o p stables l).0 ≡ map_option (λ (s : Stable). s.value.session) o)
      × ((replace_stable o p stables l).1.stables ≡ stables)
unfolding replace_stable
replace_stable_lem none p stables l = (refl, refl)
replace_stable_lem (some old) p stables l = (refl, refl)

module _ (ids : Key PeerId) (sockets : Key SocketAddr) where
  -- A peer that is made stable is found as itself, before any entry of the tree, and messages for it
  -- go to its session, whoever sent them. An older session of the peer, if there was one, is told to
  -- close. Every other peer has the stable entry that it had.
  pub get-add_stable :
      (p q prev : PeerId) (v : KadValue) (is_direct : Bool) (l : PeerList)
      → let (old, l') = add_stable p v is_direct l in
        (old ≡ map_option (λ (s : Stable). s.value.session) (Map.get PeerId-discrete p l.stables))
        × (get ids sockets p l' ≡ some (senders v true))
        × (next_closest ids sockets p prev l' ≡ some v.session)
        × (stable_get q l'
            ≡ (if equal PeerId-discrete p q then some (senders v true) else stable_get q l))
  unfolding add_stable get next_closest stable_get
  get-add_stable p q prev v is_direct l =
      let entry : Stable = record { value = v; is_direct = is_direct } in
      let stables = Map.insert PeerId-discrete p entry l.stables in
      let (old, e) = replace_stable_lem (Map.get PeerId-discrete p l.stables) p stables l in
      let here = Map.get-insert_self PeerId-discrete p entry l.stables in
      (
        old,
        rw (e, here),
        rw (e, here),
        rw (e, Map.get-insert PeerId-discrete p q entry l.stables)
            (stable_ite (equal PeerId-discrete p q)),
      )
    where
      stable_ite :
          (b : Bool)
          → map_option
              (λ (s : Stable). senders s.value true)
              (if b
                then some (record { value = v; is_direct = is_direct })
                else Map.get PeerId-discrete q l.stables)
            ≡ (if b
                then some (senders v true)
                else map_option
                    (λ (s : Stable). senders s.value true)
                    (Map.get PeerId-discrete q l.stables))
      stable_ite true = refl
      stable_ite false = refl
