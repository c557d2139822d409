-- ===== src/Tests/Requests.antt =====
-- The worker thread of a device with the drive of `Trees`.
use mtpmount.Base.{
  ◌≡◌, refl, true, false, Option, none, some, [], ◌∷◌, ◌++◌, arith, ◌==◌, ==_iff, ◌>>=◌,
  if◌then◌else◌,
}
use mtpmount.Base.Int.{pos}
use mtpmount.Base.Text.{Text, codes, eq_text}
use mtpmount.Base.Assoc.{find_key, insert_key}
use mtpmount.Fs.{Node}
use mtpmount.Drive.{is_a_file, check_if_exists, existence}
use mtpmount.Drive.Invariant.{IsTree}
use mtpmount.Connection.{
  Device, FileRequest, Connection, new_connection, map_new_drive, enqueue_file_push_request,
  enqueue_file_pull_request, user_request, create_as_file, check_file_existance,
}
use mtpmount.Connection.Worker.{run, pending, callbacks, told, run-pending}
use mtpmount.Connection.Drives.{AreNumbered}
use mtpmount.Connection.TestDevice.{test_device, test_device-Laws, pull_after_push, idle}
use mtpmount.Tests.Values.{ascii_upper, photo_path, other_path, noon}
use mtpmount.Tests.Trees.{with_photo, with_photo-IsTree, photo_node}

-- A device that does not move nodes, and for which a discovery does nothing.
abbrev pub device : Device Unit Node Unit
device = test_device ascii_upper noon (λ p q s. (s, false)) (λ p f s. (s, true))

abbrev local_files : Text → Option Text
local_files p = if eq_text p (codes "local") then some (codes "new") else none

abbrev connection : Connection Unit Node Unit
connection = new_connection with_photo local_files

connection-AreNumbered : AreNumbered connection
unfolding new_connection find_key
connection-AreNumbered = record { distinct = tt; below = λ i f. absurd (f refl) }

-- A drive is mapped.
abbrev mapped : Connection Unit Node Unit
mapped = (map_new_drive (codes "phone" ∷ []) (λ n. tt) (pos 0) connection).0

mapped_drive : find_key ◌==◌ 0 mapped.my_drives ≡ some tt
unfolding map_new_drive new_connection find_key insert_key
mapped_drive = refl

mapped-AreNumbered : AreNumbered mapped
unfolding map_new_drive new_connection find_key insert_key
mapped-AreNumbered = record { distinct = (refl, tt); below = λ i f. ground (arith, ==_iff 0 i) }

-- Requests of all kinds, with and without callbacks.
abbrev busy : Connection Unit Node Unit
busy = record mapped {
  tree_access_requests =
      user_request 0 photo_path check_file_existance (some 1)
      ∷ user_request 0 other_path create_as_file none
      ∷ [];
  file_pull_requests =
      record { drv = 0; d_file = photo_path; p_file = codes "copy"; callback = some 2 } ∷ [];
  file_push_requests =
      record { drv = 7; d_file = photo_path; p_file = codes "local"; callback = some 3 } ∷ [];
}

run-pending_example :
    (c' : Connection Unit Node Unit) × (run ascii_upper device 4 busy ≡ some c')
    × ((pending ascii_upper device c' ≡ 0)
        × (told c'.answered ≡ told busy.answered ++ callbacks ascii_upper device busy))
run-pending_example = run-pending ascii_upper device 4 busy refl

photo_is_file : check_if_exists ascii_upper photo_path with_photo ≡ is_a_file
unfolding check_if_exists existence
photo_is_file = rw photo_node refl

abbrev push_request : FileRequest
push_request = record { drv = 0; d_file = photo_path; p_file = codes "local"; callback = some 1 }

abbrev pull_request : FileRequest
pull_request = record { drv = 0; d_file = photo_path; p_file = codes "copy"; callback = some 2 }

pull_after_push_example :
    (c' : Connection Unit Node Unit) × ((run ascii_upper device 1
          (enqueue_file_push_request push_request (idle mapped))
        >>= (λ c1. run ascii_upper device 1 (enqueue_file_pull_request pull_request c1)))
      ≡ some c')
    × ((c'.files (codes "copy") ≡ some (codes "new"))
        × (c'.answered ≡ mapped.answered ++ (1, true) ∷ (2, true) ∷ []))
unfolding new_connection map_new_drive
pull_after_push_example =
    pull_after_push ascii_upper device (λ d s. IsTree ascii_upper s) mapped tt 0 110 1 2 photo_path
      (codes "ew") (codes "local") (codes "copy")
      (test_device-Laws ascii_upper noon (λ p q s. (s, false)) (λ p f s. (s, true)))
      with_photo-IsTree (λ e. cc) photo_is_file mapped_drive refl
