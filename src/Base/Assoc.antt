-- ===== src/Base/Assoc.antt =====
-- `std::map` as an association list. Two keys are one if `same` says so: for a map that is neither
-- below the other in its order. The order of the entries is not that of the map.
use mathlib.Core.Path.{◌≡◌, refl}
use mathlib.Core.Logic.{◌↔◌}
use mathlib.Core.Bool.{Bool, true}
use mathlib.Core.Option.{Option, none, some}
use mathlib.Core.List.{List, [], ◌∷◌}
use native.Mathlib.Omega.{arith}
use mtpmount.Base.Tests.{if◌then◌else◌}

module _ {ℓ κ} {K : Type ℓ} {V : Type κ} (same : K → K → Bool) where
  -- `at`, with `none` for `std::out_of_range`
  unfoldable pub find_key : K → List (K × V) → Option V
  find_key k [] = none
  find_key k ((j, v) ∷ m) = if same j k then some v else find_key k m

  -- `erase`
  unfoldable pub erase_key : K → List (K × V) → List (K × V)
  erase_key k [] = []
  erase_key k ((j, v) ∷ m) = if same j k then m else (j, v) ∷ erase_key k m

  -- `insert` and `emplace`: an entry that is there stays.
  unfoldable pub insert_key : K → V → List (K × V) → List (K × V)
  insert_key k v [] = (k, v) ∷ []
  insert_key k v ((j, w) ∷ m) = if same j k then (j, w) ∷ m else (j, w) ∷ insert_key k v m

  -- A change of the object that the entry points to.
  unfoldable pub alter_key : K → (V → V) → List (K × V) → List (K × V)
  alter_key k f [] = []
  alter_key k f ((j, v) ∷ m) = if same j k then (j, f v) ∷ m else (j, v) ∷ alter_key k f m

  abbrev pub HasDistinctKeys : List (K × V) → Type κ
  HasDistinctKeys [] = Unit
  HasDistinctKeys ((j, v) ∷ m) = (find_key j m ≡ none) × HasDistinctKeys m

-- The laws, for keys that are one exactly if they have one canonical form.
module _ {ℓ κ μ} {K : Type ℓ} {V : Type κ} {U : Type μ} (same : K → K → Bool) (canon : K → U)
    (same_iff : (j k : K) → (same j k ≡ true) ↔ (canon j ≡ canon k)) where
  pub find-insert :
      (k j : K) (v : V) (m : List (K × V))
      → find_key same j (insert_key same k v m)
        ≡ (elim (find_key same j m) [ some w ↦ some w | none ↦ if same k j then some v else none ])
  unfolding find_key insert_key
  find-insert k j v [] = ground arith
  find-insert k j v ((i, w) ∷ m) =
      ground (arith, same_iff i k, same_iff i j, same_iff k j, find-insert k j v m)

  pub find-alter :
      (k j : K) (f : V → V) (m : List (K × V))
      → find_key same j (alter_key same k f m) ≡ (elim (find_key same j m) [
        | some w ↦ if same k j then some (f w) else some w
        | none ↦ none
      ])
  unfolding find_key alter_key
  find-alter k j f [] = refl
  find-alter k j f ((i, w) ∷ m) =
      ground (arith, same_iff i k, same_iff i j, same_iff k j, find-alter k j f m)

  -- Keys that are one find one thing.
  pub find-same :
      (k j : K) (m : List (K × V)) → canon k ≡ canon j → find_key same k m ≡ find_key same j m
  unfolding find_key
  find-same k j [] e = refl
  find-same k j ((i, w) ∷ m) e = ground (arith, same_iff i k, same_iff i j, find-same k j m e)

  pub find-erase :
      (k j : K) (m : List (K × V))
      → HasDistinctKeys same m
      → find_key same j (erase_key same k m) ≡ (if same k j then none else find_key same j m)
  unfolding find_key erase_key
  find-erase k j [] d = ground arith
  find-erase k j ((i, w) ∷ m) d =
      ground
        (arith, same_iff i k, same_iff i j, same_iff k j, find-same i j m, find-erase k j m d.1)

  pub HasDistinctKeys-insert :
      (k : K) (v : V) (m : List (K × V))
      → HasDistinctKeys same m
      → HasDistinctKeys same (insert_key same k v m)
  unfolding insert_key find_key
  HasDistinctKeys-insert k v [] d = (refl, tt)
  HasDistinctKeys-insert k v ((i, w) ∷ m) d =
      ground
        (arith, same_iff k i, same_iff i k, find-insert k i v m, HasDistinctKeys-insert k v m d.1)

  pub HasDistinctKeys-alter :
      (k : K) (f : V → V) (m : List (K × V))
      → HasDistinctKeys same m
      → HasDistinctKeys same (alter_key same k f m)
  unfolding alter_key find_key
  HasDistinctKeys-alter k f [] d = tt
  HasDistinctKeys-alter k f ((i, w) ∷ m) d =
      ground (arith, find-alter k i f m, HasDistinctKeys-alter k f m d.1)

  pub HasDistinctKeys-erase :
      (k : K) (m : List (K × V))
      → HasDistinctKeys same m
      → HasDistinctKeys same (erase_key same k m)
  unfolding erase_key find_key
  HasDistinctKeys-erase k [] d = tt
  HasDistinctKeys-erase k ((i, w) ∷ m) d =
      ground (arith, find-erase k i m d.1, HasDistinctKeys-erase k m d.1)
