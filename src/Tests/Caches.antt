-- ===== src/Tests/Caches.antt =====
-- A cache that operations lead to.
use mtpmount.Base.{true, false, some, [], ◌∷◌, ◌≡◌, refl}
use mtpmount.Base.Int.{pos}
use mtpmount.Base.Text.{codes}
use mtpmount.Base.Assoc.{find_key, insert_key, alter_key}
use mtpmount.Base.Digits.{print_base}
use mtpmount.Path.{full_path, lt_path}
use mtpmount.Hash.{find_unused, get_hash, contains, new_provider}
use mtpmount.Entry.{
  push, dirty, push_if_dirty, async_push, Entry, pulling, pull, while_pulling, new_entry,
  get_read_access, get_access,
}
use mtpmount.Cache.{
  destroy, destroy_cache, get_file_size_of_cached_file, FileCache, new_cache, find_entry,
  cache_access, create_cache_entry, begin_access_by_file_name, put_entry,
}
use mtpmount.Cache.TableKey.{Key, same_key, lt_key}
use mtpmount.Cache.Sound.{entry_key}
use mtpmount.Cache.Reachable.{Reach, start, later, access_begins, one_file_one_key, entry_of_key}
use mtpmount.Tests.Values.{photo_path, photo_path_lower, length_mod}

abbrev photo_entry : Entry
photo_entry = record {
  status = pulling;
  delete_without_sync = false;
  path_on_device = photo_path;
  drv_id_on_device = 1;
  path_in_cache = codes "c";
  read_accesses = pos 1;
  write_accesses = pos 0;
  last_write = 3;
  last_read = 3;
}

abbrev photo_key : Key
photo_key = record { drv = 1; filepath = photo_path }

abbrev lower_key : Key
lower_key = record { drv = 1; filepath = photo_path_lower }

-- A client begins to read one file.
abbrev one_file : FileCache
one_file = record {
  cachemap = (photo_key, photo_entry) ∷ [];
  hashprov = record { already_used = 12 ∷ []; conflicts = 0 };
  cache_base_dir = codes "C:";
  requests = pull 1 photo_path (codes "C:\\c") ∷ [];
  deleted = [];
}

one_file_reached : Reach length_mod 5 (codes "C:") one_file
unfolding new_cache begin_access_by_file_name cache_access create_cache_entry find_key insert_key
    alter_key get_hash find_unused contains print_base full_path new_entry get_read_access
    get_access put_entry same_key lt_key lt_path new_provider
one_file_reached = later start (access_begins photo_key false 3 {w = while_pulling} refl)

found_upper : find_entry photo_key one_file.cachemap ≡ some photo_entry
unfolding find_key same_key lt_key lt_path
found_upper = refl

found_lower : find_entry lower_key one_file.cachemap ≡ some photo_entry
unfolding find_key same_key lt_key lt_path
found_lower = refl

one_file_one_key_example : same_key photo_key lower_key ≡ true
one_file_one_key_example =
    one_file_one_key length_mod 5 photo_key lower_key photo_entry photo_entry one_file_reached
      found_upper found_lower refl

entry_of_key_example : same_key (entry_key photo_entry) lower_key ≡ true
entry_of_key_example = entry_of_key length_mod 5 lower_key photo_entry one_file_reached found_lower

-- The end of a cache with a file that was changed.
abbrev changed_file : FileCache
changed_file = record one_file {
  cachemap = (photo_key, record photo_entry { status = dirty }) ∷ [];
  requests = [];
}

pushed_at_end : (destroy_cache changed_file).requests ≡ push 1 photo_path (codes "C:\\c") ∷ []
unfolding destroy_cache destroy push_if_dirty async_push
pushed_at_end = refl

removed_at_end : (destroy_cache changed_file).deleted ≡ codes "C:\\c" ∷ []
unfolding destroy_cache destroy
removed_at_end = refl

size_of_copy : get_file_size_of_cached_file length_mod lower_key one_file ≡ 4
unfolding get_file_size_of_cached_file find_key same_key lt_key lt_path
size_of_copy = refl
