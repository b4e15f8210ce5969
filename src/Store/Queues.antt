-- ===== src/Store/Queues.antt =====
-- src/buffer.rs: the queues of what waits for a connection.
use mathlib.Core.List.{append-nil, append_assoc}
use chamomile.Prelude.{
  ℕ, Bool, false, Option, none, some, [], ◌∷◌, ◌++◌, ◌≡◌, ◌≢◌, refl, sym, ap, ◌∙◌,
}
use chamomile.Prelude.Bytes.{Bytes}
use chamomile.Prelude.Map
use chamomile.Prelude.Map.{Map}
use chamomile.Types.Ids.{PeerId, PeerId-discrete}
use chamomile.Store.Buffer.{
  Queue, Buffer, enqueue_on, enqueue, queue_of, add_connect, remove_connect,
}

abbrev queue : PeerId → Map PeerId (Bool × Queue) → Queue
queue p m = queue_of (Map.get PeerId-discrete p m)

enqueue_on-get :
    (o : Option (Bool × Queue)) (p : PeerId) (tid : ℕ) (bytes : Bytes)
    (m : Map PeerId (Bool × Queue))
    → queue p (enqueue_on o p tid bytes m).1 ≡ queue_of o ++ (tid, bytes) ∷ []
unfolding enqueue_on queue_of
enqueue_on-get none p tid bytes m =
    ap queue_of (Map.get-insert_self PeerId-discrete p (false, (tid, bytes) ∷ []) m)
enqueue_on-get (some (seen, q)) p tid bytes m =
    ap queue_of (Map.get-insert_self PeerId-discrete p (seen, q ++ (tid, bytes) ∷ []) m)

enqueue_on-get_ne :
    (o : Option (Bool × Queue)) (p q : PeerId) (tid : ℕ) (bytes : Bytes)
    (m : Map PeerId (Bool × Queue))
    → p ≢ q
    → Map.get PeerId-discrete q (enqueue_on o p tid bytes m).1 ≡ Map.get PeerId-discrete q m
unfolding enqueue_on
enqueue_on-get_ne none p q tid bytes m n =
    Map.get-insert_ne PeerId-discrete p q (false, (tid, bytes) ∷ []) m n
enqueue_on-get_ne (some (seen, l)) p q tid bytes m n =
    Map.get-insert_ne PeerId-discrete p q (seen, l ++ (tid, bytes) ∷ []) m n

-- the queue of one peer, one entry after the other
unfoldable enqueue_all : PeerId → Queue → Map PeerId (Bool × Queue) → Map PeerId (Bool × Queue)
enqueue_all p [] m = m
enqueue_all p ((tid, bytes) ∷ more) m = enqueue_all p more (enqueue p tid bytes m).1

queue-enqueue_all :
    (p : PeerId) (q : Queue) (m : Map PeerId (Bool × Queue))
    → queue p (enqueue_all p q m) ≡ queue p m ++ q
unfolding enqueue_all enqueue
queue-enqueue_all p [] m = sym (append-nil (queue p m))
queue-enqueue_all p ((tid, bytes) ∷ more) m =
    queue-enqueue_all p more (enqueue p tid bytes m).1
    ∙ ap (λ l. l ++ more) (enqueue_on-get (Map.get PeerId-discrete p m) p tid bytes m)
    ∙ append_assoc (queue p m) ((tid, bytes) ∷ []) more

get-enqueue_all_ne :
    (p r : PeerId) (q : Queue) (m : Map PeerId (Bool × Queue))
    → p ≢ r
    → Map.get PeerId-discrete r (enqueue_all p q m) ≡ Map.get PeerId-discrete r m
unfolding enqueue_all enqueue
get-enqueue_all_ne p r [] m n = refl
get-enqueue_all_ne p r ((tid, bytes) ∷ more) m n =
    get-enqueue_all_ne p r more (enqueue p tid bytes m).1 n
    ∙ enqueue_on-get_ne (Map.get PeerId-discrete p m) p r tid bytes m n

-- `add_connect` for each entry of a queue in turn
unfoldable pub add_connects : PeerId → Queue → Buffer → Buffer
unfolding add_connect
add_connects p [] b = b
add_connects p ((tid, bytes) ∷ more) b = add_connects p more (add_connect p tid bytes b).1

add_connects_lem :
    (p : PeerId) (q : Queue) (b : Buffer)
    → add_connects p q b ≡ record b { connects = enqueue_all p q b.connects }
unfolding add_connects add_connect enqueue_all
add_connects_lem p [] b = refl
add_connects_lem p ((tid, bytes) ∷ more) b = add_connects_lem p more (add_connect p tid bytes b).1

-- The connect data that is added for a peer is handed out once, behind what waited before, in the
-- order in which it came; what waits for another peer is as it was.
pub remove_connect-add_connects :
    (p r : PeerId) (q : Queue) (b : Buffer)
    → p ≢ r
    → let (taken, b') = remove_connect p (add_connects p q b) in
      (taken ≡ (remove_connect p b).0 ++ q)
      × ((remove_connect p b').0 ≡ [])
      × ((remove_connect r b').0 ≡ (remove_connect r b).0)
unfolding remove_connect queue_of
remove_connect-add_connects p r q b n =
    let m = enqueue_all p q b.connects in
    rw (add_connects_lem p q b) (
      queue-enqueue_all p q b.connects,
      ap queue_of (Map.get-remove_self PeerId-discrete p m),
      ap queue_of
          (Map.get-remove_ne PeerId-discrete p r m n ∙ get-enqueue_all_ne p r q b.connects n),
    )
