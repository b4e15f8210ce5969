-- ===== src/Examples/Stores.antt =====
-- A buffer that the timer goes over, and a peer that becomes stable.
use chamomile.Prelude.{
  ℕ, true, false, none, some, [], ◌∷◌, ◌≡◌, ◌≢◌, refl, arith, equal, if◌then◌else◌,
}
use chamomile.Prelude.Map
use chamomile.Prelude.Maybe.{map_option}
use chamomile.Types.Ids.{PeerId, PeerId-discrete}
use chamomile.Types.Socket.{SocketAddr-discrete}
use chamomile.Kad.Distance.{calc_distance, xor, neq, head_bit, tail_bits, get_bit, bit}
use chamomile.Kad.Node.{
  insert, insert_step, insert_leaf, scan_same, remove_found, present, left_of, right_of, list_of,
}
use chamomile.Kad.Tree.{new_tree, settle, tree_add}
use chamomile.Kad.Tree.Adding.{new_tree-IsKadTree}
use chamomile.Kad.Double.Removing.{exact_match, contains-remove}
use chamomile.Kad.Double.Adding.{IsDouble, add-IsDouble}
use chamomile.Store.Meeting.{dht_get-add_dht}
use chamomile.Kad.Double.{KadValue, DoubleKadTree, new_double, add, remove, search, contains}
use chamomile.Store.Buffer.{Buffer, Tmp, timer_clear}
use chamomile.Store.Sweep.{
  IsBuffer, Told, aged, timer_clear-aged, timer_clear-Told, timer_clear-timer_clear,
}
use chamomile.Store.PeerList.{
  dht_get, add_dht, add_bootstrap, save, PeerList, Stable, senders, get, stable_get, next_closest,
  add_stable,
}
use chamomile.Store.Stables.{get-add_stable}
use chamomile.Examples.{id_of, socket_of, peer_of}
use chamomile.Examples.Sessions.{ids, sockets, peers_of}

abbrev pub value_of : ℕ → KadValue
value_of n = record { session = n; stream = n; peer = peer_of n }

abbrev old_tmp : Tmp
old_tmp = record { value = value_of 7; is_direct = true }

abbrev some_buffer : Buffer
some_buffer = record {
  dhts = (socket_of 3, (false, tt)) ∷ [];
  connects = (id_of 5, (false, (1, 2 ∷ []) ∷ [])) ∷ [];
  results = (id_of 5, (true, (4, []) ∷ [])) ∷ [];
  tmps = (id_of 5, (true, old_tmp)) ∷ [];
}

some_buffer-IsBuffer : IsBuffer some_buffer
unfolding Map.get
some_buffer-IsBuffer = record {
  dhts = (refl, tt);
  connects = (refl, tt);
  results = (refl, tt);
  tmps = (refl, tt);
}

timer_clear-aged_example :
    (Map.get SocketAddr-discrete (socket_of 3) (timer_clear some_buffer).1.dhts
      ≡ aged SocketAddr-discrete (Map.get SocketAddr-discrete (socket_of 3) some_buffer.dhts))
    × (Map.get PeerId-discrete (id_of 5) (timer_clear some_buffer).1.connects
        ≡ aged PeerId-discrete (Map.get PeerId-discrete (id_of 5) some_buffer.connects))
    × (Map.get PeerId-discrete (id_of 5) (timer_clear some_buffer).1.results
        ≡ aged PeerId-discrete (Map.get PeerId-discrete (id_of 5) some_buffer.results))
    × (Map.get PeerId-discrete (id_of 5) (timer_clear some_buffer).1.tmps
        ≡ aged PeerId-discrete (Map.get PeerId-discrete (id_of 5) some_buffer.tmps))
timer_clear-aged_example = timer_clear-aged some_buffer (id_of 5) (socket_of 3) some_buffer-IsBuffer

seen_tmp : Map.get PeerId-discrete (id_of 5) some_buffer.tmps ≡ some (true, old_tmp)
unfolding Map.get
seen_tmp = ground arith

timer_clear-Told_example : Told 7 (timer_clear some_buffer).0
timer_clear-Told_example = timer_clear-Told some_buffer (id_of 5) old_tmp seen_tmp

timer_clear-timer_clear_example :
    (Map.get SocketAddr-discrete (socket_of 3) (timer_clear (timer_clear some_buffer).1).1.dhts
      ≡ none)
    × (Map.get PeerId-discrete (id_of 5) (timer_clear (timer_clear some_buffer).1).1.connects
        ≡ none)
    × (Map.get PeerId-discrete (id_of 5) (timer_clear (timer_clear some_buffer).1).1.results ≡ none)
    × (Map.get PeerId-discrete (id_of 5) (timer_clear (timer_clear some_buffer).1).1.tmps ≡ none)
timer_clear-timer_clear_example =
    timer_clear-timer_clear some_buffer (id_of 5) (socket_of 3) some_buffer-IsBuffer

abbrev with_five : PeerList
with_five = (add_stable (id_of 5) (value_of 7) true (peers_of 4)).1

get-add_stable_example :
    ((add_stable (id_of 5) (value_of 8) false with_five).0
      ≡ map_option
          (λ (s : Stable). s.value.session)
          (Map.get PeerId-discrete (id_of 5) with_five.stables))
    × (get ids sockets (id_of 5) (add_stable (id_of 5) (value_of 8) false with_five).1
        ≡ some (senders (value_of 8) true))
    × (next_closest ids sockets
          (id_of 5)
          (id_of 4)
          (add_stable (id_of 5) (value_of 8) false with_five).1
        ≡ some 8)
    × (stable_get (id_of 6) (add_stable (id_of 5) (value_of 8) false with_five).1 ≡ (
        if equal PeerId-discrete (id_of 5) (id_of 6)
        then some (senders (value_of 8) true)
        else stable_get (id_of 6) with_five))
get-add_stable_example =
    get-add_stable ids sockets (id_of 5) (id_of 6) (id_of 4) (value_of 8) false with_five

pub empty-IsDouble : IsDouble ids sockets (peers_of 4).dhts
unfolding new_double
empty-IsDouble = record {
  peers = new_tree-IsKadTree ids (id_of 4);
  ips = new_tree-IsKadTree sockets (socket_of 4);
}

abbrev met : DoubleKadTree
met = (add ids sockets (peers_of 4).dhts 9 (value_of 7)).1

met-IsDouble : IsDouble ids sockets met
met-IsDouble = add-IsDouble ids sockets (peers_of 4).dhts 9 (value_of 7) empty-IsDouble

contains-remove_example :
    ((remove ids sockets met (id_of 7)).0 ≡ exact_match (search ids sockets met (id_of 7)))
    × IsDouble ids sockets (remove ids sockets met (id_of 7)).1
    × (contains ids sockets (remove ids sockets met (id_of 7)).1 (id_of 7) ≡ false)
    × ((j : PeerId)
        → j ≢ id_of 7
        → contains ids sockets (remove ids sockets met (id_of 7)).1 j ≡ contains ids sockets met j)
contains-remove_example = contains-remove ids sockets met (id_of 7) met-IsDouble

met_seven : (add_dht ids sockets 9 (value_of 7) (peers_of 4)).0 ≡ true
unfolding add_dht add_bootstrap save add new_double tree_add new_tree settle insert insert_step
    insert_leaf scan_same remove_found present left_of right_of list_of calc_distance xor neq
    head_bit tail_bits get_bit bit
met_seven = refl

dht_get-add_dht_example :
    dht_get ids sockets (id_of 7) (add_dht ids sockets 9 (value_of 7) (peers_of 4)).1
    ≡ some (senders (value_of 7) true)
dht_get-add_dht_example =
    dht_get-add_dht ids sockets 9 (value_of 7) (peers_of 4) empty-IsDouble met_seven
