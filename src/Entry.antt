-- ===== src/Entry.antt =====
-- mtpcache/FileCache.h and FileCache.cpp: `FileTableEntry`, one file of the cache, and its callbacks
-- `AvabilitySwitcher` and `AvabilitySwitcher2`. A method is what its thread does; where the method
-- waits it ends in a `Wait`, and `resume` is what the thread does when it is woken. Requests to the
-- device are returned in the order in which they are enqueued. `now` is the time in seconds.
pub mod Faults
pub mod Tracked
use mtpmount.Base.{
  ℕ, zero, suc, ◌+◌, ◌-◌, Bool, true, false, not, ◌&&◌, ◌||◌, Option, none, some, List, [], ◌∷◌,
  ◌++◌, ltb, ◌==◌, if◌then◌else◌,
}
use mtpmount.Base.Int.{ℤ, pos, negsuc}
use mtpmount.Base.Text.{Text}
use mtpmount.Path.{FsPath}

-- `FileTableEntryStatus`
pub data Status : Type 0 where
  nonexistant pulling available dirty pushing fail : Status

pub record Entry : Type 0 where
  pub status : Status
  pub delete_without_sync : Bool
  pub path_on_device : FsPath
  pub drv_id_on_device : ℕ
  pub path_in_cache : Text
  pub read_accesses : ℤ
  pub write_accesses : ℤ
  pub last_write : ℕ
  pub last_read : ℕ

-- `FilePullRequest` and `FilePushRequest`, with the callback of the entry.
pub data Request : Type 0 where
  pull push : (drv : ℕ) → FsPath → Text → Request

abbrev pub is_status : Status → Status → Bool
is_status nonexistant nonexistant = true
is_status pulling pulling = true
is_status available available = true
is_status dirty dirty = true
is_status pushing pushing = true
is_status fail fail = true
is_status _ _ = false

unfoldable pub increment : ℤ → ℤ
increment (pos n) = pos (suc n)
increment (negsuc zero) = pos 0
increment (negsuc (suc n)) = negsuc n

unfoldable pub decrement : ℤ → ℤ
decrement (pos zero) = negsuc 0
decrement (pos (suc n)) = pos n
decrement (negsuc n) = negsuc (suc n)

abbrev pub is_zero : ℤ → Bool
is_zero (pos zero) = true
is_zero (pos (suc n)) = false
is_zero (negsuc n) = false

-- The constructor, with the name from the hash provider.
unfoldable pub new_entry : FsPath → ℕ → Text → ℕ → Entry
new_entry device_path drv_id hash now = record {
  status = nonexistant;
  delete_without_sync = false;
  path_on_device = device_path;
  drv_id_on_device = drv_id;
  path_in_cache = hash;
  read_accesses = pos 0;
  write_accesses = pos 0;
  last_write = now;
  last_read = now;
}

-- `_asyncPull`, `_asyncPush`: `file` is the file in the cache directory.
unfoldable pub async_pull : Text → Entry → Entry × List Request
async_pull file e = elim (is_status e.status pulling) [
  | true ↦ (e, [])
  | false ↦ (record e { status = pulling }, pull e.drv_id_on_device e.path_on_device file ∷ [])
]

unfoldable pub async_push : Text → Entry → Entry × List Request
async_push file e = elim (is_status e.status pushing) [
  | true ↦ (e, [])
  | false ↦ (record e { status = pushing }, push e.drv_id_on_device e.path_on_device file ∷ [])
]

-- Where `_getAccess` stands when it lets other threads run.
pub data Wait : Type 0 where
  returned : Bool → Wait
  while_pushing while_pulling : Wait

-- `_getAccess`, up to its result or its first wait.
unfoldable pub get_access : Text → Bool → Entry → (Entry × List Request) × Wait
unfolding async_pull
get_access file ignore_push e =
    if is_status e.status pushing && not ignore_push
    then ((e, []), while_pushing)
    else if is_status e.status available || is_status e.status pushing || is_status e.status dirty
    then ((e, []), returned true)
    else (async_pull file e, while_pulling)

-- The test of the wait: whether `_getAccess` goes on waiting, or what it returns.
unfoldable pub resume : Wait → Entry → Wait
resume (returned r) e = returned r
resume while_pushing e = if is_status e.status pushing then while_pushing else returned true
resume while_pulling e =
    if is_status e.status pulling then while_pulling else returned (not (is_status e.status fail))

unfoldable pub get_read_access : Text → ℕ → Entry → (Entry × List Request) × Wait
unfolding get_access increment
get_read_access file now e =
    get_access file true (record e { read_accesses = increment e.read_accesses; last_read = now })

unfoldable pub end_read_access : ℕ → Entry → Entry
unfolding decrement
end_read_access now e = record e { read_accesses = decrement e.read_accesses; last_read = now }

unfoldable pub get_write_access : Text → ℕ → Entry → (Entry × List Request) × Wait
unfolding get_access increment
get_write_access file now e =
    get_access file false
      (record e { write_accesses = increment e.write_accesses; last_write = now })

unfoldable pub end_write_access : ℕ → Entry → Entry
unfolding decrement
end_write_access now e = record e {
  write_accesses = decrement e.write_accesses;
  last_write = now;
  status = dirty;
}

unfoldable pub is_idle : Entry → Bool
is_idle e =
    not (is_status e.status pulling)
    && (not (is_status e.status pushing)
        && (not (is_status e.status dirty)
            && (is_zero e.write_accesses && is_zero e.read_accesses)))

unfoldable pub is_dirty : Entry → Bool
is_dirty e = is_status e.status dirty

unfoldable pub access_clear : Entry → Bool
access_clear e = is_zero e.read_accesses && is_zero e.write_accesses

unfoldable pub write_access_clear : Entry → Bool
write_access_clear e = is_zero e.write_accesses

unfoldable pub push_if_dirty : Text → Entry → Entry × List Request
unfolding async_push
push_if_dirty file e = if is_status e.status dirty then async_push file e else (e, [])

-- `setDeleteWithoutSync`, `rename`
unfoldable pub set_delete_without_sync : Entry → Entry
set_delete_without_sync e = record e { delete_without_sync = true }

unfoldable pub rename_entry : FsPath → Entry → Entry
rename_entry new_path e = record e { path_on_device = new_path }

-- `AvabilitySwitcher::callback`, at the end of a pull.
unfoldable pub pull_done : Bool → Entry → Entry
pull_done successful e = record e { status = if not successful then fail else available }

-- `AvabilitySwitcher2::callback`, at the end of a push.
unfoldable pub push_done : Bool → Entry → Entry
push_done successful e =
    if is_status e.status pushing
    then record e { status = if successful then available else dirty }
    else e
