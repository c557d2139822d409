-- ===== src/Tests/Mounts.antt =====
-- Mounting of the storages `card` and `disk` of the device `phone`.
use mtpmount.Base.{
  ℕ, ◌+◌, ◌≡◌, ◌≢◌, refl, true, ◌&&◌, none, some, [], ◌∷◌, arith, if◌then◌else◌, get_elem?,
}
use mtpmount.Base.Text.{Text, codes, eq_text}
use mtpmount.Base.Digits.{print_base}
use mtpmount.Base.Assoc.{find_key, insert_key, alter_key}
use mtpmount.Connection.{new_connection, map_new_drive}
use mtpmount.Mount.Gains.{Reports}
use mtpmount.Provider.{
  refresh, refresh_device_list, count_devices, read_devices, get_friendly_name_of_device, open_guid,
  Manager, Provider, open_connection_to_device, close_connection,
}
use mtpmount.Provider.Counts.{AreUsed, users, close_connection-open_connection}
use mtpmount.Mount.Ids.{
  DevStorageId, Ids, no_ids, joined, to_storage_enum, decide_id_parameter, decided,
}
use mtpmount.Mount.Ids.Stable.{AreStored, decide_id_parameter-to_storage_enum}
use mtpmount.Mount.Store.{
  open_connection, add_connection, open_loop, new_active_connection, map_drive, map_new,
  map_by_name, mount_drive, decide_drive, finds, has_letter, get_available_drives, available_loop,
  Host, ActiveConnection, MountAddressStore,
}
use mtpmount.Mount.Commands.{
  mount_command, returns, return_success, Reply, mount_target, mount_targeted, mount_chosen,
  mount_named, mount_opened, mount_on, put_connection, choose_letter, upper_letter, first_byte,
}
use mtpmount.Mount.Unmounting.{unmount_command}
use mtpmount.Mount.Listing.{list_command}
use mtpmount.Mount.Listing.Balance.{Keeps, list_command-Keeps}
use mtpmount.Mount.Wellformed.{letter_of}
use mtpmount.Mount.Reachable.{Reach, begin, step, mounts, new_store, letters_are_own}
use mtpmount.Mount.ByLetter.{unmount_by_letter}

abbrev pub manager : Manager
manager = record {
  refreshes = true;
  count = some 1;
  devices = some (codes "id" ∷ []);
  friendly_name = λ guid. some (codes "phone");
  opens = λ guid. true;
}

abbrev pub provider : Provider
provider = record { available_device_guids = codes "id" ∷ []; available_connections = [] }

-- The drives C and D are the ones that Windows has.
abbrev pub host : Host Unit Unit
host = record {
  manager = manager;
  device = λ guid. tt;
  files = λ p. none;
  mappable_drive_names = λ guid full. codes "card" ∷ codes "disk" ∷ [];
  drive_by_name = λ guid name. tt;
  mounts = λ letter name. true;
  logical_drives = 12;
  from_utf8 = λ t. t;
  to_utf8 = λ t. t;
}

abbrev empty_store : MountAddressStore Unit Unit Unit
empty_store = new_store provider

abbrev mounted : MountAddressStore Unit Unit Unit
mounted = (mount_command host (codes "phone" ∷ codes "disk" ∷ codes "m" ∷ []) empty_store).0

provider-AreUsed : AreUsed provider
unfolding find_key
provider-AreUsed = record { distinct = tt; used = λ guid e. cc }

nothing_mounted : Reports host empty_store
unfolding find_key
nothing_mounted d n c e = cc

mounted-Reach : Reach mounted
mounted-Reach =
    step (begin provider)
      (mounts host (codes "phone" ∷ codes "disk" ∷ codes "m" ∷ []) nothing_mounted)

mounted_letter : letter_of mounted.connectionmap (codes "phone") (codes "disk") ≡ some b'M'
unfolding mount_command mount_target mount_targeted mount_chosen mount_named mount_opened mount_on
    put_connection open_connection add_connection open_loop refresh refresh_device_list
    count_devices read_devices get_friendly_name_of_device open_connection_to_device open_guid
    new_active_connection map_drive map_new map_by_name mount_drive decide_drive choose_letter
    upper_letter finds has_letter get_available_drives available_loop first_byte decide_id_parameter
    new_connection map_new_drive insert_key find_key alter_key
mounted_letter = refl

letters_are_own_example :
    ((d e n k : Text) (c : ℕ)
      → letter_of mounted.connectionmap d n ≡ some c
      → letter_of mounted.connectionmap e k ≡ some c
      → (d ≡ e) × (n ≡ k))
    × ((d : Text) (ac : ActiveConnection Unit Unit Unit)
        → find_key eq_text d mounted.connectionmap ≡ some ac
        → ac.drivemap ≢ [])
letters_are_own_example = letters_are_own mounted mounted-Reach

abbrev unmounted : MountAddressStore Unit Unit Unit × Reply
unmounted = unmount_command host (codes "M:" ∷ []) mounted

unmount_by_letter_example :
    (unmounted.1.outcome ≡ returns return_success)
    × ((e k : Text)
        → letter_of unmounted.0.connectionmap e k ≡ (
            if eq_text (codes "phone") e && eq_text (codes "disk") k
            then none
            else letter_of mounted.connectionmap e k))
unmount_by_letter_example =
    unmount_by_letter host b'M' (codes ":") (codes "phone") (codes "disk") mounted mounted-Reach
      mounted_letter (λ e. cc) (λ e. cc) (omega arith) (omega arith)

opens :
    open_connection_to_device manager 0 provider
    ≡ ((open_connection_to_device manager 0 provider).0, some (codes "id"))
unfolding open_connection_to_device open_guid find_key
opens = refl

list_command-Keeps_example :
    Keeps empty_store (list_command host (codes "available" ∷ []) empty_store).0
list_command-Keeps_example =
    list_command-Keeps host (codes "available" ∷ []) empty_store provider-AreUsed

close_connection-open_connection_example :
    (get_elem? provider.available_device_guids 0 ≡ some (codes "id"))
    × ((g : Text)
        → users g (open_connection_to_device manager 0 provider).0
          ≡ (if eq_text (codes "id") g then users g provider + 1 else users g provider))
    × ((g : Text)
        → users g (close_connection (codes "id") (open_connection_to_device manager 0 provider).0)
          ≡ users g provider)
    × AreUsed (close_connection (codes "id") (open_connection_to_device manager 0 provider).0)
close_connection-open_connection_example =
    close_connection-open_connection manager 0 provider
      (open_connection_to_device manager 0 provider).0 (codes "id") provider-AreUsed opens

abbrev disk : DevStorageId
disk = record { connection = codes "phone"; storage = codes "disk" }

no_ids-AreStored : AreStored no_ids
unfolding find_key
no_ids-AreStored = record { stored = λ id n h. cc }

abbrev with_disk : Ids
with_disk = record { idvector = disk ∷ []; idset = (disk, 0) ∷ [] }

disk_added : to_storage_enum disk no_ids ≡ (with_disk, 0)
unfolding to_storage_enum find_key insert_key
disk_added = refl

decide_id_parameter-to_storage_enum_example :
    (id' : DevStorageId) × (decide_id_parameter (b'#' ∷ print_base 10 0) with_disk ≡ decided id')
    × (joined id' ≡ joined disk)
decide_id_parameter-to_storage_enum_example =
    decide_id_parameter-to_storage_enum disk no_ids with_disk 0 no_ids-AreStored (λ e. cc)
      disk_added (omega arith)
