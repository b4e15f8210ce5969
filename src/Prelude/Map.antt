-- ===== src/Prelude/Map.antt =====
-- `std::collections::HashMap`: its entries in the order in which an iteration meets them. No
-- statement rests on that order.
use mathlib.Core.Bool.{Bool}
use mathlib.Core.List.{List, [], ◌∷◌}
use mathlib.Core.Option.{Option, none, some}
use mathlib.Core.Path.{◌≡◌, refl, ap, ◌∙◌}
use native.Mathlib.Omega.{arith}
use chamomile.Prelude.Tests.{if◌then◌else◌, equal, equal_no, is_some}

abbrev pub Map {ℓ} : Type ℓ → Type ℓ → Type ℓ
Map K V = List (K × V)

module _ {ℓ} {K V : Type ℓ} (dec : Discrete K) where
  unfoldable pub get : K → Map K V → Option V
  get k [] = none
  get k ((j, v) ∷ m) = if equal dec j k then some v else get k m

  -- `insert` replaces the value of a key that is there.
  unfoldable pub insert : K → V → Map K V → Map K V
  insert k v [] = (k, v) ∷ []
  insert k v ((j, w) ∷ m) = if equal dec j k then (k, v) ∷ m else (j, w) ∷ insert k v m

  -- Every entry of the key goes, so that the key is absent afterwards.
  unfoldable pub remove : K → Map K V → Map K V
  remove k [] = []
  remove k ((j, w) ∷ m) = if equal dec j k then remove k m else (j, w) ∷ remove k m

  abbrev pub contains_key : K → Map K V → Bool
  contains_key k m = is_some (get k m)

  pub get-insert :
      (k j : K) (v : V) (m : Map K V)
      → get j (insert k v m) ≡ (if equal dec k j then some v else get j m)
  unfolding get insert
  get-insert k j v [] = refl
  get-insert k j v ((i, w) ∷ m) = ground (arith, get-insert k j v m)

  pub get-remove :
      (k j : K) (m : Map K V) → get j (remove k m) ≡ (if equal dec k j then none else get j m)
  unfolding get remove
  get-remove k j [] = ground arith
  get-remove k j ((i, w) ∷ m) = ground (arith, get-remove k j m)

  pub get-insert_self : (k : K) (v : V) (m : Map K V) → get k (insert k v m) ≡ some v
  get-insert_self k v m = ground (arith, get-insert k k v m)

  pub get-remove_self : (k : K) (m : Map K V) → get k (remove k m) ≡ none
  get-remove_self k m = ground (arith, get-remove k k m)

  pub get-insert_ne : (k j : K) (v : V) (m : Map K V) → ¬ (k ≡ j) → get j (insert k v m) ≡ get j m
  get-insert_ne k j v m n =
      get-insert k j v m ∙ ap (λ (b : Bool). if b then some v else get j m) (equal_no dec k j n)

  pub get-remove_ne : (k j : K) (m : Map K V) → ¬ (k ≡ j) → get j (remove k m) ≡ get j m
  get-remove_ne k j m n =
      get-remove k j m ∙ ap (λ (b : Bool). if b then none else get j m) (equal_no dec k j n)
