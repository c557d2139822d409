-- ===== src/Cache/Sync/Turns.antt =====
-- mtpcache/FileCache.cpp: what the loops over the map do to one key.
use mtpmount.Base.{
  ℕ, ◌+◌, Bool, false, ◌||◌, Option, none, some, List, [], ◌∷◌, if◌then◌else◌, ◌≡◌, ◌⊎◌, inl, inr,
  refl, ap, ◌∙◌, Bool-cases, arith,
}
use mtpmount.Base.Assoc.{find_key, HasDistinctKeys, find-same, find-erase, HasDistinctKeys-erase}
use mtpmount.Entry.{Entry, Request}
use mtpmount.Cache.{CacheMap, FileCache, find_entry, drop_entry, destroy}
use mtpmount.Cache.TableKey.{Key, same_key, same_key_iff, canon}
use mtpmount.Cache.Sync.{turns, delete_loop}

abbrev pub Distinct : CacheMap → Type 0
Distinct = HasDistinctKeys same_key

-- The key is one of the list.
unfoldable pub is_listed : Key → List Key → Bool
is_listed j [] = false
is_listed j (k ∷ ks) = same_key k j || is_listed j ks

-- The entry after its turn.
abbrev pub after_turn : (Entry → Entry × List Request) → Option Entry → Option Entry
after_turn turn none = none
after_turn turn (some e) = some (turn e).0

module _ (turn : Entry → Entry × List Request) where
  pub find-turns :
      (j : Key) (i : ℕ) (m : CacheMap)
      → find_entry j (turns (λ _. turn) (λ _. false) i m).0 ≡ after_turn turn (find_entry j m)
  unfolding turns find_key
  find-turns j i [] = refl
  find-turns j i ((k, e) ∷ m) = ground (arith, find-turns j (i + 1) m)

module _ (turn : ℕ → Entry → Entry × List Request) where
  pub find-turns_interrupted :
      (interrupted : ℕ → Bool) (j : Key) (i : ℕ) (m : CacheMap)
      → (find_entry j (turns turn interrupted i m).0 ≡ find_entry j m)
        ⊎ ((n : ℕ) × (find_entry j (turns turn interrupted i m).0
              ≡ after_turn (turn n) (find_entry j m)))
  unfolding turns find_key
  find-turns_interrupted interrupted j i [] = inl refl
  find-turns_interrupted interrupted j i ((k, e) ∷ m) = elim (Bool-cases (same_key k j)) [
    | inl here ↦ inr (i, ground (arith, here))
    | inr other ↦ elim (find-turns_interrupted interrupted j (i + 1) m) [
      | inl same ↦ inl (ground (arith, other, same))
      | inr (n, turned) ↦ elim (Bool-cases (interrupted i)) [
        | inl stop ↦ inl (ground (arith, other, stop))
        | inr go ↦ inr (n, ground (arith, other, go, turned))
      ]
    ]
  ]

  missing-turns :
      (interrupted : ℕ → Bool) (j : Key) (i : ℕ) (m : CacheMap)
      → find_entry j m ≡ none
      → find_entry j (turns turn interrupted i m).0 ≡ none
  missing-turns interrupted j i m h = elim (find-turns_interrupted interrupted j i m) [
    | inl same ↦ same ∙ h
    | inr (n, turned) ↦ turned ∙ ap (after_turn (turn n)) h
  ]

  pub Distinct-turns :
      (interrupted : ℕ → Bool) (i : ℕ) (m : CacheMap)
      → Distinct m
      → Distinct (turns turn interrupted i m).0
  unfolding turns find_key
  Distinct-turns interrupted i [] d = tt
  Distinct-turns interrupted i ((k, e) ∷ m) d =
      ground
        (arith, missing-turns interrupted k (i + 1) m, Distinct-turns interrupted (i + 1) m d.1)

pub find-drop_entry :
    (k j : Key) (c : FileCache)
    → Distinct c.cachemap
    → find_entry j (drop_entry k c).cachemap
      ≡ (if same_key k j then none else find_entry j c.cachemap)
unfolding drop_entry destroy
find-drop_entry k j c d = ground (
  arith,
  find-erase same_key canon same_key_iff k j c.cachemap d,
  find-same same_key canon same_key_iff k j c.cachemap,
  same_key_iff k j,
)

pub Distinct-drop_entry :
    (k : Key) (c : FileCache) → Distinct c.cachemap → Distinct (drop_entry k c).cachemap
unfolding drop_entry destroy
Distinct-drop_entry k c d =
    ground (arith, HasDistinctKeys-erase same_key canon same_key_iff k c.cachemap d)

pub find-delete_loop :
    (j : Key) (i : ℕ) (ks : List Key) (c : FileCache)
    → Distinct c.cachemap
    → find_entry j (delete_loop (λ _. false) i ks c).cachemap
      ≡ (if is_listed j ks then none else find_entry j c.cachemap)
unfolding delete_loop is_listed
find-delete_loop j i [] c d = refl
find-delete_loop j i (k ∷ ks) c d = ground (
  arith,
  find-drop_entry k j c d,
  find-delete_loop j (i + 1) ks (drop_entry k c) (Distinct-drop_entry k c d),
)

pub find-delete_loop_interrupted :
    (interrupted : ℕ → Bool) (j : Key) (i : ℕ) (ks : List Key) (c : FileCache)
    → Distinct c.cachemap
    → is_listed j ks ≡ false
    → find_entry j (delete_loop interrupted i ks c).cachemap ≡ find_entry j c.cachemap
unfolding delete_loop is_listed
find-delete_loop_interrupted interrupted j i [] c d h = refl
find-delete_loop_interrupted interrupted j i (k ∷ ks) c d h = ground (
  arith,
  find-drop_entry k j c d,
  find-delete_loop_interrupted interrupted j (i + 1) ks (drop_entry k c)
      (Distinct-drop_entry k c d),
)
