-- ===== src/Tests/Files.antt =====
-- Entries of the cache.
use mtpmount.Base.{ℕ, Bool, ◌≡◌, ◌↔◌, refl, true, false, none, some, [], ◌∷◌, if◌then◌else◌, length}
use mtpmount.Base.Text.{codes}
use mtpmount.Base.Assoc.{find_key, HasDistinctKeys-alter}
use mtpmount.Path.{parent_path, lt_path}
use mtpmount.Path.Order.{upper_cases}
use mtpmount.Entry.{
  Entry, available, dirty, pushing, push, new_entry, push_if_dirty, end_write_access, pull_done,
  push_done, is_dirty, access_clear, get_read_access, get_write_access, rename_entry, is_idle,
}
use mtpmount.Entry.Faults.{overlapping_pushes}
use mtpmount.Entry.Tracked.{Tracked, tracked_entry}
use mtpmount.Cache.{FileCache, put_entry, find_entry, new_cache, unsynced_cache_rebind}
use mtpmount.Cache.TableKey.{Key, same_key, same_key_iff, canon, lt_key}
use mtpmount.Cache.Shrink.{sweep_reads-Shrinks}
use mtpmount.Cache.Rebind.{find-unsynced_cache_rebind}
use mtpmount.Cache.Sync.{sweep_reads, general_time_based_sync, is_expired, time_turn, must_move}
use mtpmount.Cache.Sync.Turns.{Distinct}
use mtpmount.Cache.Sync.MustMove.{must_move_iff}
use mtpmount.Cache.Sync.Sweep.{find-general_time_based_sync, used_between_is_deleted}
use mtpmount.Tests.Values.{ascii_upper, photo_path, other_path}

-- A file that is there, one that is being pushed, and one that was written at time 3.
abbrev pub pulled : Entry
pulled = pull_done true (new_entry photo_path 1 (codes "a1") 3)

abbrev in_push : Entry
in_push = record pulled { status = pushing }

abbrev pub changed : Entry
changed = record (new_entry other_path 1 (codes "a2") 3) { status = dirty }

overlapping_pushes_example :
    let (flushed, requests) = push_if_dirty (codes "a1") (end_write_access 9 in_push) in
    (requests ≡ push 1 photo_path (codes "a1") ∷ [])
    × ((push_done true flushed).status ≡ available)
    × (is_dirty (push_done false (push_done true flushed)) ≡ false)
unfolding new_entry pull_done
overlapping_pushes_example = overlapping_pushes (codes "a1") 9 in_push refl

-- A file that is not here yet.
abbrev remote : Entry
remote = new_entry other_path 1 (codes "a2") 3

-- A file is pulled for a reader.
abbrev pulled_file : Tracked
pulled_file = record (tracked_entry photo_path 1 (codes "a1") 3 7) {
  entry =
      pull_done true (get_read_access (codes "a1") 4 (new_entry photo_path 1 (codes "a1") 3)).0.0;
  local_version = some 7;
}

must_move_iff_example : (must_move ascii_upper photo_path other_path ≡ false) ↔ (
    (length photo_path ≡ length other_path)
    × (upper_cases (parent_path ascii_upper photo_path)
        ≡ upper_cases (parent_path ascii_upper other_path)))
must_move_iff_example = must_move_iff ascii_upper photo_path other_path

abbrev pub photo_key : Key
photo_key = record { drv = 1; filepath = photo_path }

abbrev pub other_key : Key
other_key = record { drv = 1; filepath = other_path }

-- One clean file and one that was changed.
abbrev pub two_files : FileCache
two_files = record (new_cache (codes "C:")) {
  cachemap = (photo_key, pulled) ∷ (other_key, changed) ∷ [];
}

pub two_files-Distinct : Distinct two_files.cachemap
unfolding find_key same_key lt_key lt_path
two_files-Distinct = (refl, (refl, tt))

found_pulled : find_entry photo_key two_files.cachemap ≡ some pulled
unfolding find_key same_key lt_key lt_path
found_pulled = refl

find-general_time_based_sync_example :
    find_entry photo_key
      (general_time_based_sync (λ _. false) (λ _. false) (λ _. 100) (λ c. c) two_files).cachemap
    ≡ (elim (find_entry photo_key two_files.cachemap) [
      | none ↦ none
      | some e ↦
          if is_expired 100 e then none else some (time_turn two_files.cache_base_dir 100 e).0
    ])
find-general_time_based_sync_example =
    find-general_time_based_sync 100 two_files photo_key two_files-Distinct

-- Between the locks a client begins to write the photo.
abbrev written : Entry
written = (get_write_access (codes "C:\\a1") 100 pulled).0.0

abbrev between : FileCache → FileCache
between c = put_entry photo_key (written, []) c

read_files-Distinct :
    (interrupted : ℕ → Bool) (clock : ℕ → ℕ)
    → Distinct (between (sweep_reads interrupted clock two_files).0).cachemap
unfolding put_entry
read_files-Distinct interrupted clock =
    HasDistinctKeys-alter same_key canon same_key_iff photo_key (λ _. written) _
      (sweep_reads-Shrinks interrupted clock two_files two_files-Distinct).still_distinct

used_between_is_deleted_example :
    find_entry photo_key
      (general_time_based_sync (λ _. false) (λ _. false) (λ _. 100) between two_files).cachemap
    ≡ none
used_between_is_deleted_example =
    used_between_is_deleted 100 between two_files photo_key pulled two_files-Distinct found_pulled
      (unfold is_expired is_idle access_clear pull_done new_entry in refl)
      (read_files-Distinct (λ _. false) (λ _. 100))

find-unsynced_cache_rebind_example :
    (c' : FileCache) × (unsynced_cache_rebind photo_path other_path 1 two_files ≡ some (c', true))
    × ((c'.hashprov ≡ two_files.hashprov)
        × (Distinct c'.cachemap
            × ((j : Key)
                → find_entry j c'.cachemap ≡ (
                    if same_key other_key j
                    then some (rename_entry other_path pulled)
                    else if same_key photo_key j
                    then none
                    else find_entry j two_files.cachemap))))
find-unsynced_cache_rebind_example =
    find-unsynced_cache_rebind photo_path other_path 1 two_files pulled two_files-Distinct
      found_pulled (unfold same_key lt_key lt_path in refl)
