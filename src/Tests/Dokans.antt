-- ===== src/Tests/Dokans.antt =====
-- The callbacks of a drive, over the cache and the drive of the tests.
use mtpmount.Base.{◌+◌, ◌^◌, ◌≡◌, refl, true, false, none, some, [], ◌∷◌, if◌then◌else◌}
use mtpmount.Base.Text.{Text, codes, eq_text}
use mtpmount.Base.Assoc.{find_key}
use mtpmount.Path.{lt_path}
use mtpmount.Fs.{Node}
use mtpmount.Entry.{Entry, available, new_entry}
use mtpmount.Cache.{new_cache}
use mtpmount.Cache.TableKey.{same_key, lt_key}
use mtpmount.Dokan.{is_this_a_write_access, Services, NodeView, Wrapper, success}
use mtpmount.Dokan.LocalFile.{write_loop}
use mtpmount.Dokan.Handlers.{volume_info, read_file, write_file}
use mtpmount.Dokan.Handlers.ReadWrite.{written_is_read}
use mtpmount.Dokan.Sizes.{FileInformation}
use mtpmount.Dokan.Backend.{World, key, services}
use mtpmount.Dokan.Backend.Filled.{local_copy, services-Laws}
use mtpmount.Dokan.Handlers.ReadWrite
use mtpmount.Tests.Values.{ascii_upper, photo_path, length_mod, noon}
use mtpmount.Tests.Trees.{with_photo}
use mtpmount.Tests.Requests.{device}

abbrev pub drive : Wrapper
drive = record { drive_id = 1; volume_name = codes "card" }

-- The photo is in the cache.
abbrev photo_entry : Entry
photo_entry = record (new_entry photo_path 1 (codes "a1") 3) { status = available }

abbrev pub world : World Unit Node
world = record {
  cache = record (new_cache (codes "C")) { cachemap = (key photo_path 1, photo_entry) ∷ [] };
  drives = (1, tt) ∷ [];
  device = with_photo;
  files = λ n. if eq_text n (codes "C\\a1") then some (codes "abc") else none;
  now = 5;
}

abbrev pub sv : Services (World Unit Node)
sv =
    services {F = Unit} ascii_upper device length_mod 3 (λ wait k w. (w, false))
      (λ i p w. (w, none)) (λ i p w. (w, none)) (λ p q i w. (w, false)) (λ p n. true)
      (λ n size w. true)

photo_copied : local_copy 1 photo_path world ≡ some (codes "C\\a1")
unfolding find_key same_key lt_key lt_path new_entry new_cache
photo_copied = refl

file_there : sv.local_file (codes "C\\a1") world ≡ some (codes "abc")
unfolding services
file_there = refl

copies_lawful : ReadWrite.Laws sv 1 (local_copy 1)
copies_lawful =
    services-Laws {F = Unit} ascii_upper device length_mod 3 (λ wait k w. (w, false))
      (λ i p w. (w, none)) (λ i p w. (w, none)) (λ p q i w. (w, false)) (λ p n. true)
      (λ n size w. true) 1

services-Laws_example : ReadWrite.Laws sv 1 (local_copy 1)
services-Laws_example =
    services-Laws {F = Unit} ascii_upper device length_mod 3 (λ wait k w. (w, false))
      (λ i p w. (w, none)) (λ i p w. (w, none)) (λ p q i w. (w, false)) (λ p n. true)
      (λ n size w. true) 1

written_is_read_example :
    let r = write_file sv drive photo_path (codes "xy") 5 world in
    (r.1 ≡ 2)
    × (r.2 ≡ success)
    × ((m : Text)
        → sv.local_file m r.0 ≡ (
            if eq_text (codes "C\\a1") m
            then some (write_loop 5 (codes "xy") (codes "abc"))
            else sv.local_file m world))
    × ((read_file sv drive photo_path 2 5 r.0).1 ≡ codes "xy")
    × ((read_file sv drive photo_path 2 5 r.0).2 ≡ success)
written_is_read_example =
    written_is_read sv drive (local_copy 1) copies_lawful photo_path (codes "xy") 5 world
      (codes "C\\a1") (codes "abc") photo_copied file_there

abbrev pub picture : NodeView
picture = record {
  node_name = codes "a b.jpg";
  node_path = photo_path;
  is_directory = false;
  payload_size = 5000000000;
  modification_time = noon;
}

abbrev pub buffer : FileInformation
buffer = record {
  file_attributes = 0;
  last_write_time = noon;
  creation_time = noon;
  last_access_time = noon;
  volume_serial_number = 0;
  file_size_low = 0;
  file_size_high = 0;
  number_of_links = 0;
  file_index_low = 0;
  file_index_high = 0;
}

-- GENERIC_READ and FILE_READ_DATA are no write accesses; FILE_APPEND_DATA is one.
write_accesses :
    (is_this_a_write_access (2 ^ 31 + 1) ≡ false) × (is_this_a_write_access (2 ^ 31 + 4) ≡ true)
unfolding is_this_a_write_access
write_accesses = (refl, refl)

-- A name is cut so that its null fits.
volume_of_drive : volume_info drive 4 100 ≡ (codes "car", codes "NTFS", 2804, 200)
unfolding volume_info
volume_of_drive = refl
