-- ===== src/Dokan/Backend.antt =====
-- The services that the callbacks of a drive use (dokanconnect/DokanDriveWrapper.cpp), over the cache
-- (mtpcache/FileCache.cpp) and the worker of a connection (mtpcache/ConnectionSync.cpp). A request for the tree
-- is what `doTreeAccessRequest` does: the worker handles it, and its callback ends the wait. Where
-- `beginAccessByFileName` waits, `serve` is what the worker and its callbacks do until it wakes up, and
-- how the wait ends. Moving and discoveries are parameters.
pub mod Filled
pub mod Existing
use mtpmount.Base.{
  ℕ, ◌-◌, ◌^◌, Bool, true, false, Option, none, some, List, ◌==◌, ◌>>=◌, if◌then◌else◌, is_some,
  length, leb, ltb, ◌&&◌, not,
}
use mtpmount.Base.Text.{Text, eq_text, codes}
use mtpmount.Base.Assoc.{find_key}
use mtpmount.Path.{FsPath}
use mtpmount.Entry.{Entry, Wait, returned, while_pushing, while_pulling}
use mtpmount.Cache.{
  FileCache, find_entry, cache_path, begin_access_by_file_name, end_file_access_by_name,
  access_result, delete_cache_entry, push_single_file, get_file_size_of_cached_file,
}
use mtpmount.Cache.TableKey.{Key}
use mtpmount.Connection.{Device, UserTreeAccessCmd, user_request}
use mtpmount.Connection.Handlers.{do_tree_access, write_local}
use mtpmount.Dokan.{Services, NodeView}

pub record World (D S : Type 0) : Type 0 where
  pub cache : FileCache
  pub drives : List (ℕ × D)
  pub device : S
  pub files : Text → Option Text
  pub now : ℕ

abbrev pub key : FsPath → ℕ → Key
key path drive = record { drv = drive; filepath = path }

-- `Utils::getOSFileSize`: for a file that is not there `tellg` returns -1, as 64 bits without sign.
unfoldable pub os_file_size : (Text → Option Text) → Text → ℕ
os_file_size files file = elim (files file) [ none ↦ 2 ^ 64 - 1 | some s ↦ length s ]

module _ {D S F : Type 0} (towupper : ℕ → ℕ) (dev : Device D S F) (generator : Text → ℕ) (fuel : ℕ)
    (serve : Wait → Key → World D S → World D S × Bool) where
  -- `doTreeAccessRequest`
  unfoldable pub do_tree_access_request :
      ℕ → FsPath → UserTreeAccessCmd → World D S → World D S × Bool
  do_tree_access_request drive path cmd w =
      let r =
        do_tree_access towupper dev (find_key ◌==◌ drive w.drives)
          (user_request drive path cmd (some 0)) w.device in
      (record w { device = r.0 }, r.1)

  -- The result of an access to the entry of a key.
  unfoldable pub accessed : Key → World D S × Bool → World D S × Text
  accessed k (w, ok) = (
    w,
    (elim (find_entry k w.cache.cachemap) [
      | none ↦ codes "ERROR"
      | some e ↦ access_result w.cache.cache_base_dir e ok
    ]),
  )

  unfoldable pub waited : Wait → Key → World D S → World D S × Bool
  waited (returned ok) k w = (w, ok)
  waited while_pushing k w = serve while_pushing k w
  waited while_pulling k w = serve while_pulling k w

  -- `beginAccessByFileName` with its wait. Without fuel enough for the search of a name nothing is
  -- done.
  unfoldable pub begin_access : FsPath → ℕ → Bool → World D S → World D S × Text
  begin_access path drive write w =
      elim (begin_access_by_file_name generator fuel (key path drive) write w.now w.cache) [
        | none ↦ (w, codes "ERROR")
        | some (c, wait) ↦
            accessed (key path drive) (waited wait (key path drive) (record w { cache = c }))
      ]

  unfoldable pub end_access : FsPath → ℕ → Bool → World D S → World D S
  end_access path drive write w =
      elim (end_file_access_by_name generator fuel (key path drive) write w.now w.cache) [
        | none ↦ w
        | some c ↦ record w { cache = c }
      ]

  -- All services. `expression` is DokanIsNameInExpression, and `resizes` says whether _chsize_s
  -- succeeds.
  unfoldable pub services :
      (ℕ → FsPath → World D S → World D S × Option (List NodeView))
      → (ℕ → FsPath → World D S → World D S × Option NodeView)
      → (FsPath → FsPath → ℕ → World D S → World D S × Bool)
      → (Text → Text → Bool)
      → (Text → ℕ → World D S → Bool)
      → Services (World D S)
  unfolding os_file_size
  services list_dir inspect move_or_rename expression resizes = record {
    request = do_tree_access_request;
    list_dir = list_dir;
    inspect = inspect;
    begin_access = begin_access;
    end_access = end_access;
    delete_cache_entry = λ p drive w.
        let r = delete_cache_entry (key p drive) w.cache in (record w { cache = r.0 }, r.1);
    push_single_file = λ p drive w.
        let r = push_single_file (key p drive) w.cache in (record w { cache = r.0 }, r.1);
    move_or_rename_inode = move_or_rename;
    get_file_size_of_cached_file =
        λ p drive w. get_file_size_of_cached_file (os_file_size w.files) (key p drive) w.cache;
    local_file = λ n w. w.files n;
    put_local_file = λ n s w. record w { files = write_local n s w.files };
    resizes = resizes;
    name_in_expression = expression;
  }
