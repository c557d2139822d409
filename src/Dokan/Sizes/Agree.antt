-- ===== src/Dokan/Sizes/Agree.antt =====
-- dokanconnect/DokanDriveWrapper.cpp: the two ways in which Windows learns the size of a file.
use mtpmount.Base.{
  ℕ, ◌+◌, ◌*◌, ◌^◌, ◌<◌, Bool, true, false, Option, some, List, length, refl, Option-cases, inl,
  inr, ◌&&◌, ◌≡◌, arith, ◌==◌, if◌then◌else◌,
}
use mtpmount.Words.{split_long_integer, to_dword, split_long_integer_joins}
use mtpmount.Base.Text.{Text}
use mtpmount.Base.Assoc.{find-same}
use mtpmount.Path.{FsPath}
use mtpmount.Entry.{Wait}
use mtpmount.Cache.{FileCache, find_entry, cache_path, get_file_size_of_cached_file}
use mtpmount.Cache.TableKey.{Key, same_key, same_key_iff, canon}
use mtpmount.Connection.{Device}
use mtpmount.Dokan.{Services, NodeView, Wrapper, success}
use mtpmount.Dokan.Backend.{World, key, os_file_size, services}
use mtpmount.Dokan.Sizes.{
  find_data, object_info, inspected, FileInformation, fill_find_data, fill_object_info,
  begin_object_info,
}

-- A size is 0 if both of its halves are.
halves-zero :
    (n : ℕ)
    → n < 2 ^ 64
    → (to_dword (split_long_integer n).0 == 0 && to_dword (split_long_integer n).1 == 0) ≡ (n == 0)
unfolding split_long_integer to_dword
halves-zero n h = ground arith

-- The two ways to fill in the size of a file, for one size of the local copy.
fill_object_info-fill_find_data :
    (cached : ℕ) (node : NodeView) (buffer : FileInformation)
    → node.is_directory ≡ false
    → cached < 2 ^ 64
    → node.payload_size < 2 ^ 64
    → let found = fill_find_data cached node in
      let info = fill_object_info node (begin_object_info cached buffer) in
      (info.file_size_low ≡ found.file_size_low)
      × (info.file_size_high ≡ found.file_size_high)
      × (found.file_size_high * 2 ^ 32 + found.file_size_low
          ≡ (if cached == 0 then node.payload_size else cached))
unfolding fill_object_info fill_find_data begin_object_info
fill_object_info-fill_find_data cached node buffer file c p = ground (
  arith,
  file,
  halves-zero cached c,
  split_long_integer_joins cached c,
  split_long_integer_joins node.payload_size p,
)

size-bounded :
    (size : Text → ℕ) (k : Key) (c : FileCache)
    → ((n : Text) → size n < 2 ^ 64)
    → get_file_size_of_cached_file size k c < 2 ^ 64
unfolding get_file_size_of_cached_file
size-bounded size k c h = elim (Option-cases (find_entry k c.cachemap)) [
  | inl absent ↦ rw (absent, get_file_size_of_cached_file) (omega arith)
  | inr (e, there) ↦ rw (there, get_file_size_of_cached_file) (h (cache_path c.cache_base_dir e))
]

os_file_size-bounded :
    (files : Text → Option Text)
    → ((n s : Text) → files n ≡ some s → length s < 2 ^ 64)
    → (n : Text) → os_file_size files n < 2 ^ 64
unfolding os_file_size
os_file_size-bounded files h n = elim (Option-cases (files n)) [
  | inl absent ↦ rw (absent, os_file_size) (omega arith)
  | inr (s, there) ↦ rw (there, os_file_size) (h n s there)
]

same_file_size :
    (size : Text → ℕ) (j k : Key) (c : FileCache)
    → same_key j k ≡ true
    → get_file_size_of_cached_file size j c ≡ get_file_size_of_cached_file size k c
unfolding get_file_size_of_cached_file
same_file_size size j k c same =
    rw
      (
        find-same same_key canon same_key_iff j k c.cachemap ((same_key_iff j k).0 same),
        get_file_size_of_cached_file,
      )
      refl

module _ {D S F : Type 0} (towupper : ℕ → ℕ) (dev : Device D S F) (generator : Text → ℕ) (fuel : ℕ)
    (serve : Wait → Key → World D S → World D S × Bool)
    (list_dir : ℕ → FsPath → World D S → World D S × Option (List NodeView))
    (inspect : ℕ → FsPath → World D S → World D S × Option NodeView)
    (move_or_rename : FsPath → FsPath → ℕ → World D S → World D S × Bool)
    (expression : Text → Text → Bool) (resizes : Text → ℕ → World D S → Bool) (d : Wrapper) where
  abbrev sv : Services (World D S)
  sv = services towupper dev generator fuel serve list_dir inspect move_or_rename expression resizes

  -- A file that a discovery finds at a path, with a node path that differs in case at most:
  -- DokanObjectInfo for that path succeeds and tells the size that DokanFindFiles lists the node with,
  -- in a state with the same cache and the same local files. The two halves make up what the cache
  -- reports for the path, or, if that is 0, the size on the device. All sizes have 64 bits.
  pub object_info-find_data :
      (path : FsPath) (buffer : FileInformation) (node : NodeView)
      (w found_in listed_in : World D S)
      → inspect d.drive_id path w ≡ (found_in, some node)
      → node.is_directory ≡ false
      → same_key (key node.node_path d.drive_id) (key path d.drive_id) ≡ true
      → listed_in.cache ≡ w.cache
      → listed_in.files ≡ w.files
      → ((n s : Text) → w.files n ≡ some s → length s < 2 ^ 64)
      → node.payload_size < 2 ^ 64
      → let told = object_info sv d path buffer w in
        let found = find_data sv d listed_in node in
        let size =
          get_file_size_of_cached_file (os_file_size w.files) (key path d.drive_id) w.cache in
        (told.2 ≡ success)
        × (told.1.file_size_low ≡ found.file_size_low)
        × (told.1.file_size_high ≡ found.file_size_high)
        × (found.file_size_high * 2 ^ 32 + found.file_size_low
            ≡ (if size == 0 then node.payload_size else size))
  unfolding object_info inspected find_data services
  object_info-find_data path buffer node w found_in listed_in seen file same cache files lengths
        small =
      let k = key path d.drive_id in
      let size = get_file_size_of_cached_file (os_file_size w.files) k w.cache in
      let one =
        same_file_size (os_file_size w.files) (key node.node_path d.drive_id) k w.cache same in
      let (low, high, joined) =
        fill_object_info-fill_find_data size node buffer file
          (size-bounded (os_file_size w.files) k w.cache (os_file_size-bounded w.files lengths))
          small in
      rw (seen, cache, files, one) (refl, low, high, joined)
