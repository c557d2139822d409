-- ===== src/Cache/Move/Moved.antt =====
-- mtpcache/FileCache.cpp: the cache after `moveOrRenameInode` of a file.
use mtpmount.Base.{
  ℕ, Bool, true, false, ◌&&◌, Option, none, some, ◌≡◌, refl, ◌∙◌, arith, if◌then◌else◌,
  Option-cases, inl, inr, List, Bool-cases,
}
use mtpmount.Path.{FsPath}
use mtpmount.Entry.{Entry, rename_entry}
use mtpmount.Cache.{FileCache, find_entry, drop_entry, unsynced_cache_rebind}
use mtpmount.Cache.Move.{Content, relocate, is_dir_request, rebind_moved, move_or_rename_inode}
use mtpmount.Cache.Rebind.{find-unsynced_cache_rebind}
use mtpmount.Cache.Sync.Turns.{Distinct, find-drop_entry, Distinct-drop_entry}
use mtpmount.Cache.TableKey.{Key, same_key, same_key_iff, canon}
use mtpmount.Base.Assoc.{find-same}
use mtpmount.Connection.{Device}

-- The entry of a file after it has got a new path.
abbrev pub renamed : FsPath → Option Entry → Option Entry
renamed newpath none = none
renamed newpath (some e) = some (rename_entry newpath e)

-- `_unsyncedCacheRebind` to a path without an entry, whether the file is cached or not.
rebind_free :
    (oldpath newpath : FsPath) (drv : ℕ) (c : FileCache)
    → let kold : Key = record { drv = drv; filepath = oldpath } in
      let knew : Key = record { drv = drv; filepath = newpath } in
      Distinct c.cachemap
      → find_entry knew c.cachemap ≡ none
      → same_key kold knew ≡ false
      → (c' : FileCache) × (found : Bool) × (unsynced_cache_rebind oldpath newpath drv c
          ≡ some (c', found))
        × ((j : Key)
            → find_entry j c'.cachemap ≡ (
                if same_key knew j
                then renamed newpath (find_entry kold c.cachemap)
                else if same_key kold j
                then none
                else find_entry j c.cachemap))
unfolding unsynced_cache_rebind
rebind_free oldpath newpath drv c d free apart =
    let kold : Key = record { drv = drv; filepath = oldpath } in
    let knew : Key = record { drv = drv; filepath = newpath } in
    elim (Option-cases (find_entry kold c.cachemap)) [
      | inl h ↦ (
        c,
        false,
        rw (h, unsynced_cache_rebind) refl,
        λ j. ground (
          arith,
          h,
          free,
          find-same same_key canon same_key_iff kold j c.cachemap,
          find-same same_key canon same_key_iff knew j c.cachemap,
          same_key_iff kold j,
          same_key_iff knew j,
        ),
      )
      | inr (e, h) ↦
          let (c', bound, (hashes, (distinct, found))) =
            find-unsynced_cache_rebind oldpath newpath drv c e d h apart in
          (c', true, bound, λ j. ground (arith, found j, h))
    ]

module _ (towupper : ℕ → ℕ) (drv_id : ℕ) {D S F : Type 0} (dev : Device D S F)
    (drives : List (ℕ × D)) (content : FsPath → S → S × Content)
    (settle : FileCache → FileCache → S → S) where
  rebind_moved-file :
      (oldpath newpath : FsPath) (c c' : FileCache) (found : Bool) (s : S)
      → unsynced_cache_rebind oldpath newpath drv_id c ≡ some (c', found)
      → (is_dir_request towupper drv_id dev drives content settle newpath s).1 ≡ false
      → rebind_moved towupper drv_id dev drives content settle oldpath newpath c s
        ≡ some ((c', (is_dir_request towupper drv_id dev drives content settle newpath s).0), true)
  unfolding rebind_moved
  rebind_moved-file oldpath newpath c c' found s bound file = rw (file, bound) refl

  move_or_rename_inode-ok :
      (oldpath newpath : FsPath) (c : FileCache) (s : S)
      → let dropped = drop_entry (record { drv = drv_id; filepath = newpath }) c in
        let moved =
          relocate towupper drv_id dev drives content settle oldpath newpath (settle c dropped s) in
        moved.1 ≡ true
        → move_or_rename_inode towupper drv_id dev drives content settle oldpath newpath c s
          ≡ rebind_moved towupper drv_id dev drives content settle oldpath newpath
              (drop_entry (record { drv = drv_id; filepath = newpath }) c)
              moved.0
  unfolding move_or_rename_inode
  move_or_rename_inode-ok oldpath newpath c s ok = rw ok refl

  move_or_rename_inode-failed :
      (oldpath newpath : FsPath) (c : FileCache) (s : S)
      → let dropped = drop_entry (record { drv = drv_id; filepath = newpath }) c in
        let moved =
          relocate towupper drv_id dev drives content settle oldpath newpath (settle c dropped s) in
        moved.1 ≡ false
        → move_or_rename_inode towupper drv_id dev drives content settle oldpath newpath c s
          ≡ some ((drop_entry (record { drv = drv_id; filepath = newpath }) c, moved.0), false)
  unfolding move_or_rename_inode
  move_or_rename_inode-failed oldpath newpath c s failed = rw failed refl

  -- `moveOrRenameInode` of a file, where the new path is another key than the old one and the worker
  -- says after the move that no directory stands there: it succeeds exactly if the device has moved the
  -- file, which it is asked to after the entry of the new path is destroyed and its push is over. After a success the new key finds the entry of the old one with the new path, or nothing
  -- if there was none, and the old key nothing; after a failure the new key finds nothing. Every other
  -- key finds what it did.
  pub find-move_or_rename_inode :
      (oldpath newpath : FsPath) (c : FileCache) (s : S)
      → let kold : Key = record { drv = drv_id; filepath = oldpath } in
        let knew : Key = record { drv = drv_id; filepath = newpath } in
        let moved =
          relocate towupper drv_id dev drives content settle oldpath newpath
            (settle c (drop_entry knew c) s) in
        Distinct c.cachemap
        → same_key kold knew ≡ false
        → (is_dir_request towupper drv_id dev drives content settle newpath moved.0).1 ≡ false
        → (c' : FileCache) × (move_or_rename_inode towupper drv_id dev drives content settle oldpath
              newpath c s
            ≡ some (
              (
                c',
                (if moved.1
                    then (is_dir_request towupper drv_id dev drives content settle newpath
                        moved.0).0
                    else moved.0),
              ),
              moved.1,
            ))
          × ((j : Key)
              → find_entry j c'.cachemap ≡ (
                  if same_key knew j
                  then (if moved.1 then renamed newpath (find_entry kold c.cachemap) else none)
                  else if moved.1 && same_key kold j
                  then none
                  else find_entry j c.cachemap))
  find-move_or_rename_inode oldpath newpath c s d apart file =
      let kold : Key = record { drv = drv_id; filepath = oldpath } in
      let knew : Key = record { drv = drv_id; filepath = newpath } in
      let dropped = drop_entry knew c in
      let moved =
        relocate towupper drv_id dev drives content settle oldpath newpath (settle c dropped s) in
      elim (Bool-cases moved.1) [
        | inl ok ↦
            let (c', found, bound, finds) =
              rebind_free oldpath newpath drv_id dropped (Distinct-drop_entry knew c d)
                (ground (arith, find-drop_entry knew knew c d, same_key_iff knew knew)) apart in
            (
              c',
              move_or_rename_inode-ok oldpath newpath c s ok
                  ∙ rebind_moved-file oldpath newpath dropped c' found moved.0 bound file
                  ∙ rw ok refl,
              λ j. ground (
                arith,
                ok,
                finds j,
                find-drop_entry knew j c d,
                find-drop_entry knew kold c d,
                same_key_iff knew kold,
                same_key_iff kold knew,
              ),
            )
        | inr failed ↦ (
          dropped,
          move_or_rename_inode-failed oldpath newpath c s failed ∙ rw failed refl,
          λ j. ground (arith, failed, find-drop_entry knew j c d),
        )
      ]
