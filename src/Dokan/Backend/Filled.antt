-- ===== src/Dokan/Backend/Filled.antt =====
-- The cache gives the callbacks of a drive what they rely on for reading and writing: a file whose entry is available or dirty
-- has a local copy (mtpcache/FileCache.cpp under dokanconnect/DokanDriveWrapper.cpp).
use mtpmount.Base.{
  ℕ, Bool, true, false, ◌||◌, Option, none, some, List, [], ◌∷◌, ◌++◌, ◌≡◌, refl, ap, ◌∙◌, arith,
  ◌>>=◌, if◌then◌else◌, >>=-eq-some,
}
use mtpmount.Base.Text.{Text, backslash}
use mtpmount.Base.Assoc.{find-alter}
use mtpmount.Path.{FsPath}
use mtpmount.Entry.{
  Entry, Request, Wait, returned, is_status, available, dirty, get_read_access, get_write_access,
  get_access, end_read_access, end_write_access,
}
use mtpmount.Cache.{
  FileCache, find_entry, cache_path, put_entry, cache_access, begin_access_by_file_name,
  end_file_access_by_name, access_result,
}
use mtpmount.Cache.TableKey.{Key, same_key, same_key_iff, canon}
use mtpmount.Connection.{Device}
use mtpmount.Connection.Handlers.{write_local}
use mtpmount.Dokan.{NodeView}
use mtpmount.Dokan.Handlers.ReadWrite.{Laws}
use mtpmount.Dokan.Backend.{World, key, services, begin_access, end_access, accessed, waited}

abbrev pub is_here : Entry → Bool
is_here e = is_status e.status available || is_status e.status dirty

abbrev pub local_copy : {D S : Type 0} → ℕ → FsPath → World D S → Option Text
local_copy drive p w = find_entry (key p drive) w.cache.cachemap >>= λ e.
    if is_here e then some (cache_path w.cache.cache_base_dir e) else none

-- An access to an entry whose file is here returns at once, and leaves its file.
get_access_here :
    (file : Text) (now : ℕ) (write : Bool) (e : Entry)
    → is_here e ≡ true
    → let r = if write then get_write_access file now e else get_read_access file now e in
      (r.1 ≡ returned true) × (is_here r.0.0 ≡ true) × (r.0.0.path_in_cache ≡ e.path_in_cache)
unfolding get_write_access get_read_access get_access
get_access_here file now write e h = ground arith

end_access_here :
    (now : ℕ) (write : Bool) (e : Entry)
    → is_here e ≡ true
    → let f = if write then end_write_access now e else end_read_access now e in
      (is_here f ≡ true) × (f.path_in_cache ≡ e.path_in_cache)
unfolding end_write_access end_read_access
end_access_here now write e h = ground arith

-- The entry of a key after it is changed.
find-put_entry :
    (k : Key) (e : Entry) (r : Entry × List Request) (c : FileCache)
    → find_entry k c.cachemap ≡ some e
    → find_entry k (put_entry k r c).cachemap ≡ some r.0
unfolding put_entry
find-put_entry k e r c f =
    ground
      (arith, f, find-alter same_key canon same_key_iff k k (λ _. r.0) c.cachemap, same_key_iff k k)

module _ (generator : Text → ℕ) (fuel : ℕ) where
  begin_access_by_file_name-puts :
      (k : Key) (write : Bool) (now : ℕ) (c : FileCache) (e : Entry)
      → find_entry k c.cachemap ≡ some e
      → let file = cache_path c.cache_base_dir e in
        let r = if write then get_write_access file now e else get_read_access file now e in
        begin_access_by_file_name generator fuel k write now c ≡ some (put_entry k r.0 c, r.1)
  unfolding begin_access_by_file_name cache_access
  begin_access_by_file_name-puts k write now c e f = rw (f, cache_access) refl

  end_file_access_by_name-puts :
      (k : Key) (write : Bool) (now : ℕ) (c : FileCache) (e : Entry)
      → find_entry k c.cachemap ≡ some e
      → end_file_access_by_name generator fuel k write now c
        ≡ some
            (put_entry k ((if write then end_write_access now e else end_read_access now e), []) c)
  unfolding end_file_access_by_name cache_access
  end_file_access_by_name-puts k write now c e f = rw (f, cache_access) refl

-- A world in which an entry that is here was changed into one that is here, with the same file.
local_copy-put_entry :
    {D S : Type 0} (p : FsPath) (drive : ℕ) (e : Entry) (r : Entry × List Request) (w : World D S)
    → find_entry (key p drive) w.cache.cachemap ≡ some e
    → is_here r.0 ≡ true
    → r.0.path_in_cache ≡ e.path_in_cache
    → let w' : World D S = record w { cache = put_entry (key p drive) r w.cache } in
      local_copy drive p w' ≡ some (cache_path w.cache.cache_base_dir e)
unfolding put_entry
local_copy-put_entry p drive e r w f here same =
    rw (find-put_entry (key p drive) e r w.cache f, here)
      (ap (λ t. some (w.cache.cache_base_dir ++ backslash ∷ [] ++ t)) same)

if_some :
    (b : Bool) (t name : Text) → (if b then some t else none) ≡ some name → (b ≡ true) × (t ≡ name)
if_some true t name h = (refl, cc)
if_some false t name h = cc

module _ {D S F : Type 0} (towupper : ℕ → ℕ) (dev : Device D S F) (generator : Text → ℕ) (fuel : ℕ)
    (serve : Wait → Key → World D S → World D S × Bool) where
  -- An access that does not wait.
  begin_access-returned :
      (p : FsPath) (drive : ℕ) (write : Bool) (w : World D S) (c : FileCache) (wait : Wait)
      (e : Entry)
      → begin_access_by_file_name generator fuel (key p drive) write w.now w.cache ≡ some (c, wait)
      → wait ≡ returned true
      → find_entry (key p drive) c.cachemap ≡ some e
      → begin_access towupper dev generator fuel serve p drive write w
        ≡ (record w { cache = c }, cache_path c.cache_base_dir e)
  unfolding begin_access accessed waited access_result
  begin_access-returned p drive write w c wait e began at_once f = ground (arith, began, at_once, f)

  begin_access-here :
      (p : FsPath) (drive : ℕ) (write : Bool) (w : World D S) (e : Entry)
      → find_entry (key p drive) w.cache.cachemap ≡ some e
      → is_here e ≡ true
      → let r = begin_access towupper dev generator fuel serve p drive write w in
        (r.1 ≡ cache_path w.cache.cache_base_dir e)
        × (local_copy drive p r.0 ≡ some (cache_path w.cache.cache_base_dir e))
        × (r.0.files ≡ w.files)
  unfolding put_entry
  begin_access-here p drive write w e f h =
      let k = key p drive in
      let file = cache_path w.cache.cache_base_dir e in
      let r = if write then get_write_access file w.now e else get_read_access file w.now e in
      let (at_once, here, same) = get_access_here file w.now write e h in
      rw
        (begin_access-returned p drive write w (put_entry k r.0 w.cache) r.1 r.0.0
          (begin_access_by_file_name-puts generator fuel k write w.now w.cache e f) at_once
          (find-put_entry k e r.0 w.cache f))
        (
          ap (λ t. (w.cache.cache_base_dir ++ backslash ∷ []) ++ t) same,
          local_copy-put_entry p drive e r.0 w f here same,
          refl,
        )

  end_access-here :
      (p : FsPath) (drive : ℕ) (write : Bool) (w : World D S) (e : Entry)
      → find_entry (key p drive) w.cache.cachemap ≡ some e
      → is_here e ≡ true
      → let w' = end_access towupper dev generator fuel serve p drive write w in
        (local_copy drive p w' ≡ some (cache_path w.cache.cache_base_dir e)) × (w'.files ≡ w.files)
  unfolding end_access
  end_access-here p drive write w e f h =
      let k = key p drive in
      let (here, same) = end_access_here w.now write e h in
      let ended = if write then end_write_access w.now e else end_read_access w.now e in
      rw (end_file_access_by_name-puts generator fuel k write w.now w.cache e f, end_access)
        (local_copy-put_entry p drive e (ended, []) w f here same, refl)

  -- The entry of a file that has a local copy.
  copied :
      (p : FsPath) (drive : ℕ) (w : World D S) (name : Text)
      → local_copy drive p w ≡ some name
      → (e : Entry) × (find_entry (key p drive) w.cache.cachemap ≡ some e)
        × (is_here e ≡ true)
        × (cache_path w.cache.cache_base_dir e ≡ name)
  copied p drive w name h =
      let (e, f, g) =
        >>=-eq-some (find_entry (key p drive) w.cache.cachemap)
          (λ e. if is_here e then some (cache_path w.cache.cache_base_dir e) else none) h in
      let (here, named) = if_some (is_here e) (cache_path w.cache.cache_base_dir e) name g in
      (e, f, here, named)

  -- However accesses wait, and whatever the parameters do, the services over the cache fill what the
  -- callbacks rely on to read and to write a file whose entry is available or dirty: each access names
  -- its local copy, and keeps the entry so and every local file.
  pub services-Laws :
      (list_dir : ℕ → FsPath → World D S → World D S × Option (List NodeView))
      (inspect : ℕ → FsPath → World D S → World D S × Option NodeView)
      (move_or_rename : FsPath → FsPath → ℕ → World D S → World D S × Bool)
      (expression : Text → Text → Bool) (resizes : Text → ℕ → World D S → Bool) (drive : ℕ)
      → Laws
          (services towupper dev generator fuel serve list_dir inspect move_or_rename expression
            resizes)
          drive
          (local_copy drive)
  unfolding services write_local
  services-Laws list_dir inspect move_or_rename expression resizes drive = record {
    begins = λ p write w name c.
        let (e, f, here, named) = copied p drive w name c in
        let (first, copy, files) = begin_access-here p drive write w e f here in
        (first ∙ named, copy ∙ ap some named, λ m. ap (λ f. f m) files);
    ends = λ p write w name c.
        let (e, f, here, named) = copied p drive w name c in
        let (copy, files) = end_access-here p drive write w e f here in
        (copy ∙ ap some named, λ m. ap (λ f. f m) files);
    puts = λ p n m s w. (refl, refl);
  }
