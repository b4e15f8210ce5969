-- ===== src/Store/Kept.antt =====
-- src/buffer.rs: the maps of the buffer have every key once.
use chamomile.Prelude.{
  ℕ, Bool, false, Option, none, some, [], ◌∷◌, ◌++◌, ◌≡◌, refl, arith, equal, equal→≡, subst, inl,
  inr, Bool-cases,
}
use chamomile.Prelude.Bytes.{Bytes}
use chamomile.Prelude.Map
use chamomile.Prelude.Map.{Map, get}
use chamomile.Types.Ids.{PeerId, PeerId-discrete}
use chamomile.Types.Socket.{SocketAddr-discrete}
use chamomile.Kad.Double.{KadValue}
use chamomile.Store.Buffer.{
  Buffer, Queue, enqueue_on, enqueue, add_connect, remove_connect, add_result, remove_result,
  add_tmp, remove_tmp, timer_clear,
}
use chamomile.Store.Sweep.{IsMap, IsBuffer, remove-IsMap, sweep-IsMap}

insert-IsMap :
    {K V : Type 0} (dec : Discrete K) (k : K) (v : V) (m : Map K V)
    → IsMap dec m
    → IsMap dec (Map.insert dec k v m)
unfolding Map.insert get
insert-IsMap dec k v [] h = (refl, tt)
insert-IsMap dec k v ((j, w) ∷ m) h = elim (Bool-cases (equal dec j k)) [
  | inl e ↦ rw e (subst (λ x. get dec x m ≡ none) (equal→≡ dec j k e) h.0, h.1)
  | inr e ↦ rw e (ground (arith, Map.get-insert dec k j v m, h.0), insert-IsMap dec k v m h.1)
]

enqueue_on-IsMap :
    (o : Option (Bool × Queue)) (p : PeerId) (tid : ℕ) (bytes : Bytes)
    (m : Map PeerId (Bool × Queue))
    → IsMap PeerId-discrete m
    → IsMap PeerId-discrete (enqueue_on o p tid bytes m).1
unfolding enqueue_on
enqueue_on-IsMap none p tid bytes m h =
    insert-IsMap PeerId-discrete p (false, (tid, bytes) ∷ []) m h
enqueue_on-IsMap (some (seen, q)) p tid bytes m h =
    insert-IsMap PeerId-discrete p (seen, q ++ (tid, bytes) ∷ []) m h

module _ (b : Buffer) (h : IsBuffer b) where
  pub add_connect-IsBuffer :
      (p : PeerId) (tid : ℕ) (bytes : Bytes) → IsBuffer (add_connect p tid bytes b).1
  unfolding add_connect enqueue
  add_connect-IsBuffer p tid bytes = record {
    dhts = h.dhts;
    connects =
        enqueue_on-IsMap (Map.get PeerId-discrete p b.connects) p tid bytes b.connects h.connects;
    results = h.results;
    tmps = h.tmps;
  }

  pub add_result-IsBuffer :
      (p : PeerId) (tid : ℕ) (bytes : Bytes) → IsBuffer (add_result p tid bytes b).1
  unfolding add_result enqueue
  add_result-IsBuffer p tid bytes = record {
    dhts = h.dhts;
    connects = h.connects;
    results =
        enqueue_on-IsMap (Map.get PeerId-discrete p b.results) p tid bytes b.results h.results;
    tmps = h.tmps;
  }

  pub remove_connect-IsBuffer : (p : PeerId) → IsBuffer (remove_connect p b).1
  unfolding remove_connect
  remove_connect-IsBuffer p = record {
    dhts = h.dhts;
    connects = remove-IsMap PeerId-discrete p b.connects h.connects;
    results = h.results;
    tmps = h.tmps;
  }

  pub remove_result-IsBuffer : (p : PeerId) → IsBuffer (remove_result p b).1
  unfolding remove_result
  remove_result-IsBuffer p = record {
    dhts = h.dhts;
    connects = h.connects;
    results = remove-IsMap PeerId-discrete p b.results h.results;
    tmps = h.tmps;
  }

  pub add_tmp-IsBuffer : (p : PeerId) (v : KadValue) (d : Bool) → IsBuffer (add_tmp p v d b)
  unfolding add_tmp
  add_tmp-IsBuffer p v d = record {
    dhts = h.dhts;
    connects = h.connects;
    results = h.results;
    tmps =
        insert-IsMap PeerId-discrete p (false, record { value = v; is_direct = d }) b.tmps h.tmps;
  }

  pub remove_tmp-IsBuffer : (p : PeerId) → IsBuffer (remove_tmp p b).1
  unfolding remove_tmp
  remove_tmp-IsBuffer p = record {
    dhts = h.dhts;
    connects = h.connects;
    results = h.results;
    tmps = remove-IsMap PeerId-discrete p b.tmps h.tmps;
  }

  pub timer_clear-IsBuffer : IsBuffer (timer_clear b).1
  unfolding timer_clear
  timer_clear-IsBuffer = record {
    dhts = sweep-IsMap SocketAddr-discrete b.dhts h.dhts;
    connects = sweep-IsMap PeerId-discrete b.connects h.connects;
    results = sweep-IsMap PeerId-discrete b.results h.results;
    tmps = sweep-IsMap PeerId-discrete b.tmps h.tmps;
  }
