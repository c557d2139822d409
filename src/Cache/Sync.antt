-- ===== src/Cache/Sync.antt =====
-- mtpcache/FileCache.cpp: `syncAllDirties`, `generalTimeBasedSync` and `_mustMove`. `interrupted` is
-- what a loop reads in `_interruptBackgroundReadOperations` or `_interruptBackgroundWriteOperations`
-- at the end of each turn; `clock` is the time of each turn, in seconds, which the source reads up to three times in a turn.
pub mod Turns
pub mod Sweep
pub mod MustMove
use mtpmount.Base.{
  ℕ, zero, suc, ◌+◌, ◌-◌, Bool, true, false, not, ◌&&◌, ◌||◌, Option, none, some, List, [], ◌∷◌,
  ◌++◌, ltb, ◌==◌, if◌then◌else◌, length,
}
use mtpmount.Base.Int.{ℤ, pos}
use mtpmount.Base.Text.{Text}
use mtpmount.Path.{FsPath, same_name, path_on_layer}
use mtpmount.Entry.{
  Entry, Request, push_if_dirty, is_dirty, is_idle, access_clear, write_access_clear,
}
use mtpmount.Cache.{CacheMap, FileCache, cache_path, drop_entry}
use mtpmount.Cache.TableKey.{Key}

-- What one turn of the loop of `syncAllDirties` does to the entry.
unfoldable pub sync_turn : Text → Entry → Entry × List Request
sync_turn dir e = if is_dirty e then push_if_dirty (cache_path dir e) e else (e, [])

-- What one turn of the first loop of `generalTimeBasedSync` does to the entry.
unfoldable pub time_turn : Text → ℕ → Entry → Entry × List Request
time_turn dir now e =
    if is_dirty e && (write_access_clear e && ltb 15 (now - e.last_write))
    then push_if_dirty (cache_path dir e) e
    else (e, [])

-- Its second test: whether the key of the entry goes to `deleteThese`.
unfoldable pub is_expired : ℕ → Entry → Bool
is_expired now e =
    is_idle e && (access_clear e && (ltb 30 (now - e.last_read) && ltb 30 (now - e.last_write)))

module _ (turn : ℕ → Entry → Entry × List Request) (interrupted : ℕ → Bool) where
  -- A loop over the map: the entries after it and what it enqueued, from turn `i` on.
  unfoldable pub turns : ℕ → CacheMap → CacheMap × List Request
  turns i [] = ([], [])
  turns i ((k, e) ∷ m) =
      let rest = turns (i + 1) m in
      if interrupted i
      then ((k, (turn i e).0) ∷ m, (turn i e).1)
      else ((k, (turn i e).0) ∷ rest.0, (turn i e).1 ++ rest.1)

-- `syncAllDirties`
unfoldable pub sync_all_dirties : (ℕ → Bool) → FileCache → FileCache
unfolding turns sync_turn
sync_all_dirties interrupted c =
    let r = turns (λ i. sync_turn c.cache_base_dir) interrupted 0 c.cachemap in
    record c { cachemap = r.0; requests = c.requests ++ r.1 }

-- `deleteThese` of the first loop of `generalTimeBasedSync`, from turn `i` on.
unfoldable pub delete_these : (ℕ → Bool) → Text → (ℕ → ℕ) → ℕ → CacheMap → List Key
unfolding time_turn is_expired
delete_these interrupted dir clock i [] = []
delete_these interrupted dir clock i ((k, e) ∷ m) =
    let rest = delete_these interrupted dir clock (i + 1) m in
    let here = if is_expired (clock i) (time_turn dir (clock i) e).0 then k ∷ [] else [] in
    if interrupted i then here else here ++ rest

-- The second loop of `generalTimeBasedSync`.
unfoldable pub delete_loop : (ℕ → Bool) → ℕ → List Key → FileCache → FileCache
delete_loop interrupted i [] c = c
delete_loop interrupted i (k ∷ ks) c =
    let rest = delete_loop interrupted (i + 1) ks (drop_entry k c) in
    if interrupted i then drop_entry k c else rest

-- `generalTimeBasedSync` up to the end of its read lock, with `deleteThese`.
unfoldable pub sweep_reads : (ℕ → Bool) → (ℕ → ℕ) → FileCache → FileCache × List Key
unfolding turns time_turn delete_these
sweep_reads interrupted clock c =
    let r = turns (λ i. time_turn c.cache_base_dir (clock i)) interrupted 0 c.cachemap in
    (
      record c { cachemap = r.0; requests = c.requests ++ r.1 },
      delete_these interrupted c.cache_base_dir clock 0 c.cachemap,
    )

-- `generalTimeBasedSync`: `between` is what other threads do to the cache after its read lock and
-- before its write lock.
unfoldable pub general_time_based_sync :
    (ℕ → Bool) → (ℕ → Bool) → (ℕ → ℕ) → (FileCache → FileCache) → FileCache → FileCache
unfolding sweep_reads delete_loop
general_time_based_sync read_interrupted write_interrupted clock between c =
    let read = sweep_reads read_interrupted clock c in
    delete_loop write_interrupted 0 read.1 (between read.0)

module _ (towupper : ℕ → ℕ) where
  -- The loop of `_mustMove` from layer `i` on, `rounds` turns.
  unfoldable pub different_loop : FsPath → FsPath → ℕ → ℕ → Bool
  different_loop p q i zero = false
  different_loop p q i (suc rounds) =
      let rest = different_loop p q (i + 1) rounds in
      if not (same_name (path_on_layer towupper p (pos i)) (path_on_layer towupper q (pos i)))
      then true
      else rest

  -- `_mustMove`: no turn of the loop for a path of one component or none.
  unfoldable pub must_move : FsPath → FsPath → Bool
  unfolding different_loop
  must_move path1 path2 =
      if not (length path1 == length path2)
      then true
      else different_loop path1 path2 0 (length path1 - 1)
