-- ===== src/Cache/Rebind.antt =====
-- mtpcache/FileCache.cpp: what `_unsyncedCacheRebind` and `deleteCacheEntry` do to each key.
use mtpmount.Base.{ℕ, Bool, true, false, Option, none, some, if◌then◌else◌, ◌≡◌, arith, append-nil}
use mtpmount.Base.Assoc.{
  erase_key, insert_key, alter_key, find-same, find-erase, find-insert, find-alter,
  HasDistinctKeys-insert, HasDistinctKeys-alter, HasDistinctKeys-erase,
}
use mtpmount.Path.{FsPath}
use mtpmount.Entry.{Entry, rename_entry, set_delete_without_sync}
use mtpmount.Cache.{
  FileCache, find_entry, drop_entry, unsynced_cache_rebind, destroy, delete_cache_entry,
}
use mtpmount.Cache.TableKey.{Key, same_key, same_key_iff, canon}
use mtpmount.Cache.Sync.Turns.{Distinct, find-drop_entry, Distinct-drop_entry}

abbrev pub is_some : Option Entry → Bool
is_some none = false
is_some (some e) = true

pub hashprov-drop_entry : (k : Key) (c : FileCache) → (drop_entry k c).hashprov ≡ c.hashprov
unfolding drop_entry destroy
hashprov-drop_entry k c = ground arith

-- `_unsyncedCacheRebind` of a cached file to a path that is another key succeeds: the new key finds
-- the entry with the new path, the old key finds nothing, and every other key what it did; no name
-- is taken.
pub find-unsynced_cache_rebind :
    (oldpath newpath : FsPath) (drv : ℕ) (c : FileCache) (e : Entry)
    → Distinct c.cachemap
    → find_entry (record { drv = drv; filepath = oldpath }) c.cachemap ≡ some e
    → same_key (record { drv = drv; filepath = oldpath }) (record { drv = drv; filepath = newpath })
      ≡ false
    → (c' : FileCache) × (unsynced_cache_rebind oldpath newpath drv c ≡ some (c', true))
      × ((c'.hashprov ≡ c.hashprov)
          × (Distinct c'.cachemap
              × ((j : Key)
                  → find_entry j c'.cachemap ≡ (
                      if same_key (record { drv = drv; filepath = newpath }) j
                      then some (rename_entry newpath e)
                      else if same_key (record { drv = drv; filepath = oldpath }) j
                      then none
                      else find_entry j c.cachemap))))
unfolding unsynced_cache_rebind
find-unsynced_cache_rebind oldpath newpath drv c e d h n =
    let kold : Key = record { drv = drv; filepath = oldpath } in
    let knew : Key = record { drv = drv; filepath = newpath } in
    let m = (drop_entry knew c).cachemap in
    let dm : Distinct m = Distinct-drop_entry knew c d in
    let di = HasDistinctKeys-insert same_key canon same_key_iff knew e m dm in
    let kept = erase_key same_key kold (insert_key same_key knew e m) in
    let de =
      HasDistinctKeys-erase same_key canon same_key_iff kold (insert_key same_key knew e m) di in
    let c' : FileCache = record (drop_entry knew c) {
      cachemap = alter_key same_key knew (rename_entry newpath) kept;
    } in
    (
      c',
      ground arith,
      (
        hashprov-drop_entry knew c,
        (
          HasDistinctKeys-alter same_key canon same_key_iff knew (rename_entry newpath) kept de,
          λ j. ground (
            arith,
            find-alter same_key canon same_key_iff knew j (rename_entry newpath) kept,
            find-erase same_key canon same_key_iff kold j (insert_key same_key knew e m) di,
            find-insert same_key canon same_key_iff knew j e m,
            find-drop_entry knew j c d,
            same_key_iff knew j,
            same_key_iff kold j,
            same_key_iff kold knew,
          ),
        ),
      ),
    )

-- `deleteCacheEntry` succeeds exactly if the key finds an entry; after it the key finds nothing and
-- every other key what it did, and no push is enqueued.
pub find-delete_cache_entry :
    (k j : Key) (c : FileCache)
    → Distinct c.cachemap
    → ((delete_cache_entry k c).1 ≡ is_some (find_entry k c.cachemap))
      × (find_entry j (delete_cache_entry k c).0.cachemap
          ≡ (if same_key k j then none else find_entry j c.cachemap))
      × ((delete_cache_entry k c).0.requests ≡ c.requests)
unfolding delete_cache_entry destroy set_delete_without_sync
find-delete_cache_entry k j c d = ground (
  arith,
  find-erase same_key canon same_key_iff k j c.cachemap d,
  find-same same_key canon same_key_iff k j c.cachemap,
  same_key_iff k j,
  append-nil c.requests,
)
