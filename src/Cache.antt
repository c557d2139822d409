-- ===== src/Cache.antt =====
-- mtpcache/FileCache.h and FileCache.cpp: `FileCache`, the map of the cached files. Its methods run
-- under `_cachemapLock` (see `RwSync`). `requests` are those that are enqueued, `deleted` the local
-- files that are removed. `generator` is `std::hash`, `fuel` bounds the search for a name.
pub mod Move
pub mod TableKey
pub mod Rebind
pub mod Sync
pub mod Sound
pub mod Access
pub mod Shrink
pub mod Reachable
use mtpmount.Base.{
  ℕ, zero, suc, ◌+◌, ◌-◌, Bool, true, false, not, ◌&&◌, ◌||◌, Option, none, some, List, [], ◌∷◌,
  ◌++◌, ltb, ◌==◌, if◌then◌else◌, ◌>>=◌, length,
}
use mtpmount.Base.Text.{Text, backslash, codes}
use mtpmount.Base.Assoc.{find_key, erase_key, insert_key, alter_key}
use mtpmount.Hash.{HashProvider, get_hash, new_provider}
use mtpmount.Path.{FsPath, full_path}
use mtpmount.Entry.{
  Entry, Request, Wait, returned, new_entry, get_read_access, get_write_access, end_read_access,
  end_write_access, resume, push_if_dirty, is_dirty, is_idle, access_clear, write_access_clear,
  set_delete_without_sync, rename_entry,
}
use TableKey.{Key, same_key}

abbrev pub CacheMap : Type 0
CacheMap = List (Key × Entry)

pub record FileCache : Type 0 where
  pub cachemap : CacheMap
  pub hashprov : HashProvider
  pub cache_base_dir : Text
  pub requests : List Request
  pub deleted : List Text

unfoldable pub new_cache : Text → FileCache
new_cache dir = record {
  cachemap = [];
  hashprov = new_provider;
  cache_base_dir = dir;
  requests = [];
  deleted = [];
}

abbrev pub find_entry : Key → CacheMap → Option Entry
find_entry = find_key same_key

-- `getCachePath`
abbrev pub cache_path : Text → Entry → Text
cache_path dir e = (dir ++ backslash ∷ []) ++ e.path_in_cache

-- `~FileTableEntry`: what it enqueues before it waits and removes the local file.
unfoldable pub destroy : Entry → FileCache → FileCache
destroy e c =
    let file = cache_path c.cache_base_dir e in
    let sent = if e.delete_without_sync then [] else (push_if_dirty file e).1 in
    record c { requests = c.requests ++ sent; deleted = c.deleted ++ file ∷ [] }

-- The object of an entry is changed, and what that enqueued.
unfoldable pub put_entry : Key → Entry × List Request → FileCache → FileCache
put_entry k (e, sent) c = record c {
  cachemap = alter_key same_key k (λ _. e) c.cachemap;
  requests = c.requests ++ sent;
}

module _ (generator : Text → ℕ) (fuel : ℕ) where
  -- `_createCacheEntry`
  unfoldable pub create_cache_entry : Key → ℕ → FileCache → Option (FileCache × Entry)
  create_cache_entry k now c = elim (find_entry k c.cachemap) [
    | some e ↦ some (c, e)
    | none ↦ do
      (hash, provider) ← get_hash generator fuel (full_path k.filepath) c.hashprov
      let e = new_entry k.filepath k.drv hash now
      some (record c { cachemap = insert_key same_key k e c.cachemap; hashprov = provider }, e)
  ]

  -- `_cacheAccess`
  unfoldable pub cache_access : Key → ℕ → FileCache → Option (FileCache × Entry)
  cache_access k now c = elim (find_entry k c.cachemap) [
    | some e ↦ some (c, e)
    | none ↦ create_cache_entry k now c
  ]

  -- `beginAccessByFileName`, up to its result or its first wait.
  unfoldable pub begin_access_by_file_name : Key → Bool → ℕ → FileCache → Option (FileCache × Wait)
  begin_access_by_file_name k write now c = do
    (c', e) ← cache_access k now c
    let file = cache_path c'.cache_base_dir e
    let r = if write then get_write_access file now e else get_read_access file now e
    some (put_entry k r.0 c', r.1)

  -- `endFileAccessByName`
  unfoldable pub end_file_access_by_name : Key → Bool → ℕ → FileCache → Option FileCache
  end_file_access_by_name k write now c = do
    (c', e) ← cache_access k now c
    some (put_entry k ((if write then end_write_access now e else end_read_access now e), []) c')

-- The name that `beginAccessByFileName` returns.
unfoldable pub access_result : Text → Entry → Bool → Text
access_result dir e true = cache_path dir e
access_result dir e false = codes "ERROR"

-- `deleteCacheEntry`
unfoldable pub delete_cache_entry : Key → FileCache → FileCache × Bool
delete_cache_entry k c = elim (find_entry k c.cachemap) [
  | none ↦ (c, false)
  | some e ↦
      let c' = destroy (set_delete_without_sync e) c in
      (record c' { cachemap = erase_key same_key k c.cachemap }, true)
]

-- `delete _cachemap.at(k); _cachemap.erase(k);` with nothing done where the key is missing.
unfoldable pub drop_entry : Key → FileCache → FileCache
drop_entry k c = elim (find_entry k c.cachemap) [
  | none ↦ c
  | some e ↦ let c' = destroy e c in record c' { cachemap = erase_key same_key k c.cachemap }
]

-- `_unsyncedCacheRebind`. Where both paths are one key the entry is used after its deletion, which
-- has no defined result.
unfoldable pub unsynced_cache_rebind : FsPath → FsPath → ℕ → FileCache → Option (FileCache × Bool)
unsynced_cache_rebind oldpath newpath drv c =
    let kold : Key = record { drv = drv; filepath = oldpath } in
    let knew : Key = record { drv = drv; filepath = newpath } in
    elim (find_entry kold c.cachemap) [
      | none ↦ some (c, false)
      | some e ↦
          if same_key kold knew
          then none
          else let c' = drop_entry knew c in
            some (
              record c' {
                cachemap =
                    alter_key same_key knew (rename_entry newpath)
                      (erase_key same_key kold (insert_key same_key knew e c'.cachemap));
              },
              true,
            )
    ]

-- `pushSingleFile`
unfoldable pub push_single_file : Key → FileCache → FileCache × Bool
push_single_file k c = elim (find_entry k c.cachemap) [
  | none ↦ (c, false)
  | some e ↦ (put_entry k (push_if_dirty (cache_path c.cache_base_dir e) e) c, true)
]

-- `getIdleStatus`, `isClearOfWrite`, `isClearOfReadWrite`
unfoldable pub get_idle_status : Key → FileCache → Bool
get_idle_status k c = elim (find_entry k c.cachemap) [ none ↦ false | some e ↦ is_idle e ]

unfoldable pub is_clear_of_write : Key → FileCache → Bool
is_clear_of_write k c = elim (find_entry k c.cachemap) [
  | none ↦ true
  | some e ↦ write_access_clear e
]

unfoldable pub is_clear_of_read_write : Key → FileCache → Bool
is_clear_of_read_write k c = elim (find_entry k c.cachemap) [
  | none ↦ true
  | some e ↦ access_clear e
]

-- `getTotalCachedFileCount`, `getDirtyFilesCount`
unfoldable pub get_total_cached_file_count : FileCache → ℕ
get_total_cached_file_count c = length c.cachemap

count_dirty : CacheMap → ℕ
count_dirty [] = 0
count_dirty ((k, e) ∷ m) = if is_dirty e then suc (count_dirty m) else count_dirty m

unfoldable pub get_dirty_files_count : FileCache → ℕ
unfolding count_dirty
get_dirty_files_count c = count_dirty c.cachemap

-- `getFileSizeOfCachedFile`: `os_file_size` is `Utils::getOSFileSize`.
unfoldable pub get_file_size_of_cached_file : (Text → ℕ) → Key → FileCache → ℕ
get_file_size_of_cached_file os_file_size k c = elim (find_entry k c.cachemap) [
  | none ↦ 0
  | some e ↦ os_file_size (cache_path c.cache_base_dir e)
]

-- `~FileCache`: each entry is destroyed. The pointers stay in the map.
destroy_all : CacheMap → FileCache → FileCache
unfolding destroy
destroy_all [] c = c
destroy_all ((k, e) ∷ m) c = destroy_all m (destroy e c)

unfoldable pub destroy_cache : FileCache → FileCache
unfolding destroy_all
destroy_cache c = destroy_all c.cachemap c
