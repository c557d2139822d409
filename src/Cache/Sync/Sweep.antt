-- ===== src/Cache/Sync/Sweep.antt =====
-- mtpcache/FileCache.cpp: what `generalTimeBasedSync` does to each entry.
use mtpmount.Base.{
  ℕ, ◌+◌, Bool, true, false, ◌||◌, Option, none, some, List, [], ◌∷◌, ◌++◌, if◌then◌else◌, ◌≡◌,
  refl, ◌∙◌, arith,
}
use mtpmount.Base.Text.{Text}
use mtpmount.Base.Assoc.{find_key, find-same}
use mtpmount.Entry.{Entry, push_if_dirty, async_push, is_dirty, is_idle}
use mtpmount.Cache.{CacheMap, FileCache, find_entry}
use mtpmount.Cache.TableKey.{Key, same_key, same_key_iff, canon}
use mtpmount.Cache.Sync.{
  turns, time_turn, is_expired, delete_these, sweep_reads, general_time_based_sync,
}
use mtpmount.Cache.Sync.Turns.{Distinct, is_listed, find-turns, Distinct-turns, find-delete_loop}

-- A turn never makes an entry expire or keeps it from it.
is_expired-time_turn :
    (dir : Text) (now : ℕ) (e : Entry) → is_expired now (time_turn dir now e).0 ≡ is_expired now e
unfolding is_expired time_turn push_if_dirty async_push is_idle is_dirty
is_expired-time_turn dir now e = ground arith

-- Whether there is an entry and it is expired.
abbrev expired_entry : ℕ → Option Entry → Bool
expired_entry now none = false
expired_entry now (some e) = is_expired now e

is_listed-append :
    (j : Key) (ks ls : List Key) → is_listed j (ks ++ ls) ≡ (is_listed j ks || is_listed j ls)
unfolding is_listed
is_listed-append j [] ls = refl
is_listed-append j (k ∷ ks) ls = ground (arith, is_listed-append j ks ls)

is_listed-delete_these :
    (dir : Text) (now : ℕ) (j : Key) (i : ℕ) (m : CacheMap)
    → Distinct m
    → is_listed j (delete_these (λ _. false) dir (λ _. now) i m)
      ≡ expired_entry now (find_entry j m)
unfolding delete_these find_key is_listed
is_listed-delete_these dir now j i [] d = refl
is_listed-delete_these dir now j i ((k, e) ∷ m) d = ground (
  arith,
  is_expired-time_turn dir now e,
  find-same same_key canon same_key_iff k j m,
  same_key_iff k j,
  is_listed-append j (k ∷ []) (delete_these (λ _. false) dir (λ _. now) (i + 1) m),
  is_listed-delete_these dir now j (i + 1) m d.1,
)

-- What each key finds after a `generalTimeBasedSync` that is not interrupted and in which no other
-- thread comes between its locks: nothing if its entry was expired, or there was none, and otherwise
-- the entry as its turn leaves it: being pushed if it was dirty, without write accesses and last
-- written over 15 seconds ago.
pub find-general_time_based_sync :
    (now : ℕ) (c : FileCache) (k : Key)
    → Distinct c.cachemap
    → find_entry k
        (general_time_based_sync (λ _. false) (λ _. false) (λ _. now) (λ c. c) c).cachemap
      ≡ (elim (find_entry k c.cachemap) [
        | none ↦ none
        | some e ↦ if is_expired now e then none else some (time_turn c.cache_base_dir now e).0
      ])
unfolding general_time_based_sync sweep_reads
find-general_time_based_sync now c k d =
    let turn = time_turn c.cache_base_dir now in
    let r = turns (λ _. turn) (λ _. false) 0 c.cachemap in
    let c' : FileCache = record c { cachemap = r.0; requests = c.requests ++ r.1 } in
    let ks = delete_these (λ _. false) c.cache_base_dir (λ _. now) 0 c.cachemap in
    ground (
      arith,
      find-turns turn k 0 c.cachemap,
      is_listed-delete_these c.cache_base_dir now k 0 c.cachemap d,
      find-delete_loop k 0 ks c' (Distinct-turns (λ _. turn) (λ _. false) 0 c.cachemap d),
    )

-- Where it is not interrupted, `generalTimeBasedSync` deletes what stands under the key of an entry
-- that was expired in its first loop, whatever other threads have made of it between the two locks:
-- also an entry that a client has access to by then, or that is dirty. The time stands still during
-- the first loop, and a key has one entry in the map, at the beginning and between the locks.
pub used_between_is_deleted :
    (now : ℕ) (between : FileCache → FileCache) (c : FileCache) (k : Key) (e : Entry)
    → Distinct c.cachemap
    → find_entry k c.cachemap ≡ some e
    → is_expired now e ≡ true
    → Distinct (between (sweep_reads (λ _. false) (λ _. now) c).0).cachemap
    → find_entry k (general_time_based_sync (λ _. false) (λ _. false) (λ _. now) between c).cachemap
      ≡ none
unfolding general_time_based_sync sweep_reads
used_between_is_deleted now between c k e d h x d' =
    let ks = delete_these (λ _. false) c.cache_base_dir (λ _. now) 0 c.cachemap in
    find-delete_loop k 0 ks _ d'
    ∙ rw (is_listed-delete_these c.cache_base_dir now k 0 c.cachemap d, h, x) refl
