-- ===== src/Hash.antt =====
-- mtpaccess/Utils.h and Utils.cpp: `ConflictlessHashProvider`, which names the files of the cache.
-- `std::hash` is a parameter. The search for an unused hash has fuel: the source may search for ever.
pub mod Distinct
use mtpmount.Base.{
  ℕ, zero, suc, ◌+◌, Bool, true, false, ◌||◌, Option, none, some, List, [], ◌∷◌, ◌++◌, ◌==◌, ◌>>=◌,
}
use mtpmount.Base.Text.{Text}
use mtpmount.Base.Digits.{print_base}

pub record HashProvider : Type 0 where
  pub already_used : List ℕ
  pub conflicts : ℕ

unfoldable pub new_provider : HashProvider
new_provider = record { already_used = []; conflicts = 0 }

unfoldable pub contains : List ℕ → ℕ → Bool
contains [] hash = false
contains (h ∷ hs) hash = (h == hash) || contains hs hash

-- What a conflict is hashed to next: the seed with the hash behind it, in decimal.
unfoldable pub rehash : (Text → ℕ) → Text → ℕ → ℕ
rehash generator seed hash = generator (seed ++ print_base 10 hash)

-- The `while` of `getHash`: the hash that is free, and the count of conflicts.
unfoldable pub find_unused : (Text → ℕ) → List ℕ → Text → ℕ → ℕ → ℕ → Option (ℕ × ℕ)
find_unused generator used seed zero hash conflicts = none
find_unused generator used seed (suc fuel) hash conflicts = elim (contains used hash) [
  | true ↦ find_unused generator used seed fuel (rehash generator seed hash) (conflicts + 1)
  | false ↦ some (hash, conflicts)
]

-- The end of `getHash`: the hash is taken, and printed in hexadecimal.
issue : HashProvider → Option (ℕ × ℕ) → Option (Text × HashProvider)
issue p none = none
issue p (some (hash, conflicts)) =
    some
      (print_base 16 hash, record { already_used = hash ∷ p.already_used; conflicts = conflicts })

-- `getHash`
unfoldable pub get_hash : (Text → ℕ) → ℕ → Text → HashProvider → Option (Text × HashProvider)
unfolding issue
get_hash generator fuel seed p =
    issue p (find_unused generator p.already_used seed fuel (generator seed) p.conflicts)

-- The names given to a series of files, the first one first, and the provider after them.
unfoldable pub get_hashes :
    (Text → ℕ) → ℕ → List Text → HashProvider → Option (List Text × HashProvider)
get_hashes generator fuel [] p = some ([], p)
get_hashes generator fuel (seed ∷ seeds) p = do
  (hash, q) ← get_hash generator fuel seed p
  (hashes, r) ← get_hashes generator fuel seeds q
  some (hash ∷ hashes, r)
