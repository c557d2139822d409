-- ===== src/Cache/Move.antt =====
-- mtpcache/FileCache.cpp: `moveOrRenameInode` and `CacheRebinder`, over the worker of a connection
-- (mtpcache/ConnectionSync.cpp), which does the requests one by one.
pub mod Moved
use mtpmount.Base.{
  ℕ, Bool, true, false, not, Option, none, some, List, ◌++◌, ◌∷◌, ◌>>=◌, ◌==◌, if◌then◌else◌,
}
use mtpmount.Base.Text.{Text, backslash}
use mtpmount.Base.Assoc.{find_key}
use mtpmount.Path.{FsPath, parse_path, full_path, last_name}
use mtpmount.Cache.{FileCache, drop_entry, unsynced_cache_rebind}
use mtpmount.Cache.TableKey.{Key}
use mtpmount.Cache.Sync.{must_move}
use mtpmount.Connection.{
  Device, TreeAccessRequest, user_request, rename_request, move_request, check_dir_existance,
}
use mtpmount.Connection.Handlers.{do_tree_access}

-- What `doForAllContent` calls a function object with, in this order.
pub data Content : Type 0 where
  no_more : Content
  file_node : Text → Content → Content
  dir_node : Text → Content → Content → Content

module _ (towupper : ℕ → ℕ) (drv_id : ℕ) where
  abbrev pub below : FsPath → Text → FsPath
  below dir node_name = parse_path towupper (full_path dir ++ backslash ∷ node_name)

  -- `CacheRebinder`, for every node of a directory. There is no result where an entry is used after
  -- its deletion.
  unfoldable pub rebind_content : FsPath → FsPath → Content → FileCache → Option FileCache
  rebind_content old_dir new_dir no_more c = some c
  rebind_content old_dir new_dir (file_node n rest) c = do
    (c', found) ← unsynced_cache_rebind (below old_dir n) (below new_dir n) drv_id c
    rebind_content old_dir new_dir rest c'
  rebind_content old_dir new_dir (dir_node n content rest) c = do
    c' ← rebind_content (below old_dir n) (below new_dir n) content c
    rebind_content old_dir new_dir rest c'

  -- `content` is the discovery of a directory with a CacheRebinder. `settle c c'` is what the worker has
  -- done to the device when the destructors of the entries that `c` has and `c'` has not are over:
  -- each waits for the push that it has sent.
  module _ {D S F : Type 0} (dev : Device D S F) (drives : List (ℕ × D))
      (content : FsPath → S → S × Content) (settle : FileCache → FileCache → S → S) where
    -- `doTreeAccessRequest`
    abbrev pub do_request : TreeAccessRequest F → S → S × Bool
    do_request req s = do_tree_access towupper dev (find_key ◌==◌ drv_id drives) req s

    -- `moveInode`
    abbrev pub move_inode : FsPath → FsPath → S → S × Bool
    move_inode old_name new_name s = do_request (move_request drv_id old_name new_name (some 0)) s

    -- `renameInode`
    abbrev pub rename_inode : FsPath → Text → S → S × Bool
    rename_inode old_name new_name s =
        do_request (rename_request drv_id old_name new_name (some 0)) s

    -- The change on the device.
    unfoldable pub relocate : FsPath → FsPath → S → S × Bool
    relocate oldpath newpath s =
        if must_move towupper oldpath newpath
        then move_inode oldpath newpath s
        else rename_inode oldpath (last_name towupper newpath).actual_case s

    abbrev pub is_dir_request : FsPath → S → S × Bool
    is_dir_request path s = do_request (user_request drv_id path check_dir_existance (some 0)) s

    -- The change of the cache after that of the device. A file has no entry to destroy at its new path.
    unfoldable pub rebind_moved : FsPath → FsPath → FileCache → S → Option ((FileCache × S) × Bool)
    rebind_moved oldpath newpath c s =
        let isdir = is_dir_request newpath s in
        let found = content newpath isdir.0 in
        if isdir.1
        then (do
          c' ← rebind_content oldpath newpath found.1 c
          some ((c', settle c c' found.0), true))
        else (do
          (c', bound) ← unsynced_cache_rebind oldpath newpath drv_id c
          some ((c', isdir.0), true))

    -- `moveOrRenameInode`
    unfoldable pub move_or_rename_inode :
        FsPath → FsPath → FileCache → S → Option ((FileCache × S) × Bool)
    move_or_rename_inode oldpath newpath c s =
        let dropped = drop_entry (record { drv = drv_id; filepath = newpath }) c in
        let moved = relocate oldpath newpath (settle c dropped s) in
        let rebound = rebind_moved oldpath newpath dropped moved.0 in
        if not moved.1 then some ((dropped, moved.0), false) else rebound
