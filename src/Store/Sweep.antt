-- ===== src/Store/Sweep.antt =====
-- src/buffer.rs: `timer_clear` and the marks of the entries.
use chamomile.Prelude.{
  ℕ, Bool, true, false, Option, none, some, List, [], ◌∷◌, ◌≡◌, ◌⊎◌, refl, ap, ◌∙◌, subst, arith,
  inl, inr, equal, equal→≡, is_some, if◌then◌else◌, Bool-cases,
}
use chamomile.Prelude.Map
use chamomile.Prelude.Map.{Map, get}
use chamomile.Prelude.Maybe.{map_option}
use chamomile.Types.Ids.{PeerId, PeerId-discrete}
use chamomile.Types.Socket.{SocketAddr, SocketAddr-discrete}
use chamomile.Store.Buffer.{
  Buffer, Tmp, seen_before, mark, remove_all, sweep, closed_sessions, timer_clear,
}

module _ {K V : Type 0} (dec : Discrete K) where
  -- every key once
  abbrev pub IsMap : Map K V → Type 0
  IsMap [] = Unit
  IsMap ((k, v) ∷ m) = (get dec k m ≡ none) × IsMap m

module _ {K V : Type 0} (dec : Discrete K) where
  -- an entry one round of the timer later
  unfoldable pub aged : Option (Bool × V) → Option (Bool × V)
  aged none = none
  aged (some (true, v)) = none
  aged (some (false, v)) = some (true, v)

  unfoldable was_seen : Option (Bool × V) → Bool
  was_seen none = false
  was_seen (some (seen, v)) = seen

  unfoldable marked : Bool × V → Bool × V
  marked (seen, v) = (true, v)

  get-mark : (k : K) (m : Map K (Bool × V)) → get dec k (mark m) ≡ map_option marked (get dec k m)
  unfolding get mark marked
  get-mark k [] = refl
  get-mark k ((j, (seen, v)) ∷ m) = ground (arith, get-mark k m)

  get-remove_all :
      (k : K) (gone : List (K × V)) (m : Map K (Bool × V))
      → get dec k (remove_all dec gone m) ≡ (if is_some (get dec k gone) then none else get dec k m)
  unfolding get remove_all
  get-remove_all k [] m = refl
  get-remove_all k ((j, v) ∷ gone) m =
      ground (arith, get-remove_all k gone (Map.remove dec j m), Map.get-remove dec j k m)

  get-seen_before :
      (k : K) (m : Map K (Bool × V))
      → IsMap dec m
      → is_some (get dec k (seen_before m)) ≡ was_seen (get dec k m)
  unfolding get seen_before was_seen
  get-seen_before k [] h = refl
  get-seen_before k ((j, (true, v)) ∷ m) h = ground (arith, get-seen_before k m h.1)
  get-seen_before k ((j, (false, v)) ∷ m) h = elim (Bool-cases (equal dec j k)) [
    | inl e ↦ rw e (
        get-seen_before k m h.1
        ∙ ap was_seen (subst (λ x. get dec x m ≡ none) (equal→≡ dec j k e) h.0))
    | inr e ↦ rw e (get-seen_before k m h.1)
  ]

  aged_lem : (o : Option (Bool × V)) → (if was_seen o then none else map_option marked o) ≡ aged o
  unfolding was_seen marked aged
  aged_lem none = refl
  aged_lem (some (true, v)) = refl
  aged_lem (some (false, v)) = refl

  get-sweep :
      (k : K) (m : Map K (Bool × V)) → IsMap dec m → get dec k (sweep dec m) ≡ aged (get dec k m)
  unfolding sweep
  get-sweep k m h =
      get-remove_all k (seen_before m) (mark m)
      ∙ rw (get-seen_before k m h, get-mark k m) (aged_lem (get dec k m))

  mark-IsMap : (m : Map K (Bool × V)) → IsMap dec m → IsMap dec (mark m)
  unfolding mark marked
  mark-IsMap [] h = tt
  mark-IsMap ((j, (seen, v)) ∷ m) h = (get-mark j m ∙ ap (map_option marked) h.0, mark-IsMap m h.1)

  pub remove-IsMap : (k : K) (m : Map K (Bool × V)) → IsMap dec m → IsMap dec (Map.remove dec k m)
  unfolding Map.remove
  remove-IsMap k [] h = tt
  remove-IsMap k ((j, v) ∷ m) h = elim (Bool-cases (equal dec j k)) [
    | inl e ↦ rw e (remove-IsMap k m h.1)
    | inr e ↦ rw e (ground (arith, Map.get-remove dec k j m, h.0), remove-IsMap k m h.1)
  ]

  remove_all-IsMap :
      (gone : List (K × V)) (m : Map K (Bool × V)) → IsMap dec m → IsMap dec (remove_all dec gone m)
  unfolding remove_all
  remove_all-IsMap [] m h = h
  remove_all-IsMap ((k, v) ∷ gone) m h =
      remove_all-IsMap gone (Map.remove dec k m) (remove-IsMap k m h)

  pub sweep-IsMap : (m : Map K (Bool × V)) → IsMap dec m → IsMap dec (sweep dec m)
  unfolding sweep
  sweep-IsMap m h = remove_all-IsMap (seen_before m) (mark m) (mark-IsMap m h)

  aged-aged : (o : Option (Bool × V)) → aged (aged o) ≡ none
  unfolding aged
  aged-aged none = refl
  aged-aged (some (true, v)) = refl
  aged-aged (some (false, v)) = refl

  get-sweep-sweep :
      (k : K) (m : Map K (Bool × V)) → IsMap dec m → get dec k (sweep dec (sweep dec m)) ≡ none
  get-sweep-sweep k m h =
      get-sweep k (sweep dec m) (sweep-IsMap m h)
      ∙ ap aged (get-sweep k m h)
      ∙ aged-aged (get dec k m)

-- Each map of the buffer has a key once.
pub record IsBuffer (b : Buffer) : Type 0 where
  pub dhts : IsMap SocketAddr-discrete b.dhts
  pub connects : IsMap PeerId-discrete b.connects
  pub results : IsMap PeerId-discrete b.results
  pub tmps : IsMap PeerId-discrete b.tmps

abbrev pub Told : ℕ → List ℕ → Type 0
Told n [] = ⊥
Told n (x ∷ xs) = (n ≡ x) ⊎ Told n xs

tell_seen :
    (p : PeerId) (t : Tmp) (m : Map PeerId (Bool × Tmp))
    → get PeerId-discrete p m ≡ some (true, t)
    → Told t.value.session (closed_sessions (seen_before m))
unfolding get seen_before closed_sessions
tell_seen p t [] e = absurd (cc)
tell_seen p t ((j, (true, v)) ∷ m) e = elim (Bool-cases (equal PeerId-discrete j p)) [
  | inl same ↦ inl (ground arith)
  | inr other ↦ inr (tell_seen p t m (rw other at e))
]
tell_seen p t ((j, (false, v)) ∷ m) e = elim (Bool-cases (equal PeerId-discrete j p)) [
  | inl same ↦ absurd (ground arith)
  | inr other ↦ tell_seen p t m (rw other at e)
]

-- One round of the timer on a buffer whose maps have each key once: an entry of any of the four maps
-- that was seen before is gone, any other stays and is marked as seen.
pub timer_clear-aged :
    (b : Buffer) (p : PeerId) (ip : SocketAddr)
    → IsBuffer b
    → let b' = (timer_clear b).1 in
      (get SocketAddr-discrete ip b'.dhts
        ≡ aged SocketAddr-discrete (get SocketAddr-discrete ip b.dhts))
      × (get PeerId-discrete p b'.connects
          ≡ aged PeerId-discrete (get PeerId-discrete p b.connects))
      × (get PeerId-discrete p b'.results ≡ aged PeerId-discrete (get PeerId-discrete p b.results))
      × (get PeerId-discrete p b'.tmps ≡ aged PeerId-discrete (get PeerId-discrete p b.tmps))
unfolding timer_clear
timer_clear-aged b p ip h = (
  get-sweep SocketAddr-discrete ip b.dhts h.dhts,
  get-sweep PeerId-discrete p b.connects h.connects,
  get-sweep PeerId-discrete p b.results h.results,
  get-sweep PeerId-discrete p b.tmps h.tmps,
)

-- The session of a temporary peer that was seen before is told to close.
pub timer_clear-Told :
    (b : Buffer) (p : PeerId) (t : Tmp)
    → get PeerId-discrete p b.tmps ≡ some (true, t)
    → Told t.value.session (timer_clear b).0
unfolding timer_clear
timer_clear-Told b p t e = tell_seen p t b.tmps e

-- Two rounds of the timer with nothing between them empty a buffer whose maps have each key once.
pub timer_clear-timer_clear :
    (b : Buffer) (p : PeerId) (ip : SocketAddr)
    → IsBuffer b
    → let b' = (timer_clear (timer_clear b).1).1 in
      (get SocketAddr-discrete ip b'.dhts ≡ none)
      × (get PeerId-discrete p b'.connects ≡ none)
      × (get PeerId-discrete p b'.results ≡ none)
      × (get PeerId-discrete p b'.tmps ≡ none)
unfolding timer_clear
timer_clear-timer_clear b p ip h = (
  get-sweep-sweep SocketAddr-discrete ip b.dhts h.dhts,
  get-sweep-sweep PeerId-discrete p b.connects h.connects,
  get-sweep-sweep PeerId-discrete p b.results h.results,
  get-sweep-sweep PeerId-discrete p b.tmps h.tmps,
)
