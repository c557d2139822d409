-- ===== src/Hash/Distinct.antt =====
-- mtpaccess/Utils.cpp: the names that `getHash` gives.
use mtpmount.Base.{
  ℕ, zero, suc, ◌+◌, false, Option, none, some, List, [], ◌∷◌, ◌≡◌, ◌≢◌, refl, sym, ap, ◌∙◌, arith,
  All, All-mono, subst, inl, inr, Bool-cases, >>=-eq-some,
}
use mtpmount.Base.Text.{Text}
use mtpmount.Base.Digits.{print_base, read_base, read-print_base}
use mtpmount.Hash.{
  HashProvider, contains, rehash, find_unused, issue, get_hash, get_hashes, new_provider,
}

-- The name of the file is not that of any hash in use.
abbrev pub IsFresh : Text → List ℕ → Type 0
IsFresh hash used = All (λ h. hash ≢ print_base 16 h) used

-- Every text of the list differs from those behind it.
abbrev pub AllDistinct : List Text → Type 0
AllDistinct [] = Unit
AllDistinct (t ∷ ts) = All (λ u. t ≢ u) ts × AllDistinct ts

print_base-injective : (h k : ℕ) → print_base 16 h ≡ print_base 16 k → h ≡ k
print_base-injective h k e =
    sym (read-print_base 16 h (omega arith) (omega arith))
    ∙ ap (read_base 16) e
    ∙ read-print_base 16 k (omega arith) (omega arith)

pub contains-IsFresh :
    (used : List ℕ) (hash : ℕ) → contains used hash ≡ false → IsFresh (print_base 16 hash) used
unfolding contains
contains-IsFresh [] hash h = tt
contains-IsFresh (k ∷ used) hash h =
    (λ e. ground (arith, print_base-injective hash k e), contains-IsFresh used hash (ground arith))

find_unused-unused :
    (generator : Text → ℕ) (used : List ℕ) (seed : Text) (fuel hash conflicts : ℕ) (r : ℕ × ℕ)
    → find_unused generator used seed fuel hash conflicts ≡ some r
    → contains used r.0 ≡ false
unfolding find_unused
find_unused-unused generator used seed zero hash conflicts r h = cc
find_unused-unused generator used seed (suc fuel) hash conflicts r h = ground (
  arith,
  find_unused-unused generator used seed fuel (rehash generator seed hash) (conflicts + 1) r,
)

abbrev pub Issued : HashProvider → Text → HashProvider → Type 0
Issued p hash q =
    (h : ℕ) × (hash ≡ print_base 16 h)
    × (contains p.already_used h ≡ false)
    × (q.already_used ≡ h ∷ p.already_used)

issue-Issued :
    (p q : HashProvider) (hash : Text) (o : Option (ℕ × ℕ))
    → ((r : ℕ × ℕ) → o ≡ some r → contains p.already_used r.0 ≡ false)
    → issue p o ≡ some (hash, q)
    → Issued p hash q
unfolding issue
issue-Issued p q hash none h e = cc
issue-Issued p q hash (some (k, c)) h e = (k, ground arith, h (k, c) refl, ground arith)

pub get_hash-Issued :
    (generator : Text → ℕ) (fuel : ℕ) (seed : Text) (p q : HashProvider) (hash : Text)
    → get_hash generator fuel seed p ≡ some (hash, q)
    → Issued p hash q
unfolding get_hash
get_hash-Issued generator fuel seed p q hash e =
    issue-Issued p q hash _ (find_unused-unused generator p.already_used seed fuel _ _) e

abbrev AreNew : List ℕ → List Text → Type 0
AreNew used hashes = All (λ t. IsFresh t used) hashes × AllDistinct hashes

AreNew-cons :
    (h : ℕ) (used : List ℕ) (hashes : List Text)
    → contains used h ≡ false
    → AreNew (h ∷ used) hashes
    → AreNew used (print_base 16 h ∷ hashes)
AreNew-cons h used hashes c (fresh, distinct) = (
  (contains-IsFresh used h c, All-mono _ _ hashes (λ t f. f.1) fresh),
  (All-mono _ _ hashes (λ t f e. f.0 (sym e)) fresh, distinct),
)

-- The names given later differ from those of the hashes in use, and from one another.
get_hashes-AreNew :
    (generator : Text → ℕ) (fuel : ℕ) (seeds : List Text) (p q : HashProvider) (hashes : List Text)
    → get_hashes generator fuel seeds p ≡ some (hashes, q)
    → AreNew p.already_used hashes
unfolding get_hashes
get_hashes-AreNew generator fuel [] p q hashes e =
    subst (AreNew p.already_used) (let n : [] ≡ hashes = cc in n) (tt, tt)
get_hashes-AreNew generator fuel (seed ∷ seeds) p q hashes e =
    let ((hash, p'), got, e') = >>=-eq-some (get_hash generator fuel seed p) _ e in
    let ((rest, r), got', e'') = >>=-eq-some (get_hashes generator fuel seeds p') _ e' in
    let (h, printed, unused, taken) = get_hash-Issued generator fuel seed p p' hash got in
    subst (AreNew p.already_used) (let n : print_base 16 h ∷ rest ≡ hashes = cc in n) (
      AreNew-cons h p.already_used rest unused
        (subst (λ u. AreNew u rest) taken (get_hashes-AreNew generator fuel seeds p' r rest got')))

-- However many files are added, with whatever paths and whatever the hash function, their names in
-- the cache are pairwise distinct.
pub get_hashes-AllDistinct :
    (generator : Text → ℕ) (fuel : ℕ) (seeds : List Text) (q : HashProvider) (hashes : List Text)
    → get_hashes generator fuel seeds new_provider ≡ some (hashes, q)
    → AllDistinct hashes
get_hashes-AllDistinct generator fuel seeds q hashes e =
    (get_hashes-AreNew generator fuel seeds new_provider q hashes e).1

-- The n-th hash that the search looks at.
abbrev pub attempt : (Text → ℕ) → Text → ℕ → ℕ → ℕ
attempt generator seed hash zero = hash
attempt generator seed hash (suc n) = attempt generator seed (rehash generator seed hash) n

find_unused-some :
    (generator : Text → ℕ) (used : List ℕ) (seed : Text) (n hash conflicts : ℕ)
    → contains used (attempt generator seed hash n) ≡ false
    → (r : ℕ × ℕ) × (find_unused generator used seed (suc n) hash conflicts ≡ some r)
unfolding find_unused
find_unused-some generator used seed zero hash conflicts h =
    ((hash, conflicts), rw (h, find_unused))
find_unused-some generator used seed (suc n) hash conflicts h =
    elim (Bool-cases (contains used hash)) [
      | inl taken ↦
          rw (taken, find_unused)
            (find_unused-some generator used seed n (rehash generator seed hash) _ h)
      | inr free ↦ ((hash, conflicts), rw (free, find_unused))
    ]

-- The search ends as soon as one of its attempts is not in use: with one round more than attempts
-- that fail, `getHash` gives a name that no hash in use has.
pub get_hash-some :
    (generator : Text → ℕ) (seed : Text) (p : HashProvider) (n : ℕ)
    → contains p.already_used (attempt generator seed (generator seed) n) ≡ false
    → (hash : Text) × (q : HashProvider) × (get_hash generator (suc n) seed p ≡ some (hash, q))
      × IsFresh hash p.already_used
unfolding get_hash
get_hash-some generator seed p n h =
    let ((k, c), found) =
      find_unused-some generator p.already_used seed n (generator seed) p.conflicts h in
    let used =
      find_unused-unused generator p.already_used seed (suc n) (generator seed) p.conflicts (k, c)
        found in
    (
      print_base 16 k,
      record { already_used = k ∷ p.already_used; conflicts = c },
      rw found (unfold issue in refl),
      contains-IsFresh p.already_used k used,
    )
