-- ===== src/Mount/Store.antt =====
-- mtpmount/MountCommands.cpp: `ActiveConnection` and `MountAddressStore`. The store of connections
-- holds here what the singletons of the source hold: the numbers of storages and the provider.
-- `Host` is what Windows, Dokan and the devices answer while a command runs. The cache and its
-- background job, which a connection makes and deletes, are left out, and so are the streams for
-- debugging. A drive stays mounted until it is unmapped.
use mtpmount.Base.{
  ℕ, zero, suc, ◌+◌, ◌-◌, ◌/◌, ◌%◌, Bool, true, false, ◌||◌, Option, none, some, List, [], ◌∷◌, map,
  ◌==◌, if◌then◌else◌, or_else, is_some,
}
use mtpmount.Base.Int.{ℤ, pos, negsuc}
use mtpmount.Base.Text.{Text, eq_text}
use mtpmount.Base.Assoc.{find_key, erase_key, insert_key}
use mtpmount.Connection.{Connection, new_connection, map_new_drive}
use mtpmount.Provider.{
  Manager, Provider, refresh, get_friendly_name_of_device, open_connection_to_device,
}
use mtpmount.Mount.Ids.{Ids}

-- `mappable_drive_names` with the flag for a full refresh and `drive_by_name` are methods of the
-- connection, `mounts` says that Dokan can mount a drive at a letter, `logical_drives` is
-- GetLogicalDrives, and `from_utf8` and `to_utf8` are `std::codecvt_utf8`.
pub record Host (D S : Type 0) : Type 0 where
  pub manager : Manager
  pub device : Text → S
  pub files : Text → Option Text
  pub mappable_drive_names : Text → Bool → List Text
  pub drive_by_name : Text → Text → D
  pub mounts : ℕ → Text → Bool
  pub logical_drives : ℕ
  pub from_utf8 : Text → Text
  pub to_utf8 : Text → Text

-- What is kept of `DokanDriveWrapper`.
pub record DriveWrapper : Type 0 where
  pub drive_id : ℕ
  pub drive_letter : ℕ

pub record ActiveConnection (D S F : Type 0) : Type 0 where
  pub guid : Text
  pub syncer : Connection D S F
  pub drivemap : List (Text × DriveWrapper)

pub record MountAddressStore (D S F : Type 0) : Type 0 where
  pub connectionmap : List (Text × ActiveConnection D S F)
  pub ids : Ids
  pub provider : Provider

-- `DecideForGivenDriveName`: the index of the name, or -1.
decide_loop : Text → ℕ → List Text → ℤ
decide_loop match i [] = negsuc 0
decide_loop match i (n ∷ ns) =
    let rest = decide_loop match (i + 1) ns in if eq_text n match then pos i else rest

unfoldable pub decide_drive : Text → List Text → ℤ
unfolding decide_loop
decide_drive match available_drives = decide_loop match 0 available_drives

-- `Utils::getAvailableDrives`: a bit of the mask for each letter, the last one before Z.
unfoldable pub available_loop : ℕ → ℕ → ℕ → Text
available_loop zero letter mask = []
available_loop (suc n) letter mask =
    let rest = available_loop n (letter + 1) (mask / 2) in
    if mask % 2 == 0 then letter ∷ rest else rest

unfoldable pub get_available_drives : ℕ → Text
get_available_drives mask = available_loop (b'Z' - b'A') b'A' mask

unfoldable pub has_letter : ℕ → Text → Bool
has_letter letter [] = false
has_letter letter (c ∷ s) = (c == letter) || has_letter letter s

-- `std::string::find` of a letter that is there.
unfoldable pub finds : ℕ → Text → Bool
finds letter s = has_letter letter s

unfoldable pub name_loop : ℕ → List (Text × DriveWrapper) → Text
name_loop letter [] = []
name_loop letter ((name, w) ∷ m) =
    let rest = name_loop letter m in if letter == w.drive_letter then name else rest

module _ {D S : Type 0} where
  -- `openConnection`: the first device of that name is opened.
  unfoldable pub open_loop : Host D S → Text → ℕ → List Text → Provider → Provider × Option Text
  open_loop h devicename i [] p = (p, none)
  open_loop h devicename i (guid ∷ guids) p =
      let rest = open_loop h devicename (i + 1) guids p in
      if eq_text (or_else (get_friendly_name_of_device h.manager i p) []) devicename
      then open_connection_to_device h.manager i p
      else rest

module _ {D S F : Type 0} where
  unfoldable pub new_active_connection : Host D S → Text → ActiveConnection D S F
  new_active_connection h guid = record {
    guid = guid;
    syncer = new_connection (h.device guid) h.files;
    drivemap = [];
  }

  -- One call of `mapNewDrive` with the decider for a name.
  unfoldable pub map_by_name :
      Host D S → Text → Text → Bool → Connection D S F → Connection D S F × ℤ
  map_by_name h guid name full_refresh c =
      let names = h.mappable_drive_names guid full_refresh in
      map_new_drive names (h.drive_by_name guid) (decide_drive name names) c

  unfoldable pub map_new : Host D S → Text → Text → Connection D S F → Connection D S F × ℤ
  unfolding map_by_name
  map_new h guid name c =
      let first = map_by_name h guid name false c in
      elim first.1 [ pos id ↦ first | negsuc i ↦ map_by_name h guid name true first.0 ]

  -- The drive object, for the drive number that the connection gave.
  unfoldable pub mount_drive :
      Host D S
      → Text
      → ℕ
      → ActiveConnection D S F
      → Connection D S F × ℤ
      → ActiveConnection D S F × Bool
  mount_drive h name letter ac (c, negsuc i) = (record ac { syncer = c }, false)
  mount_drive h name letter ac (c, pos id) =
      if h.mounts letter name
      then (
        record ac {
          syncer = c;
          drivemap =
              insert_key eq_text name record { drive_id = id; drive_letter = letter } ac.drivemap;
        },
        true,
      )
      else (record ac { syncer = c }, false)

  unfoldable pub map_drive :
      Host D S → Text → ℕ → ActiveConnection D S F → ActiveConnection D S F × Bool
  unfolding map_new mount_drive
  map_drive h name letter ac = elim (find_key eq_text name ac.drivemap) [
    | some w ↦ (ac, true)
    | none ↦ mount_drive h name letter ac (map_new h ac.guid name ac.syncer)
  ]

  unfoldable pub is_drive_mapped : Text → ActiveConnection D S F → Bool
  is_drive_mapped drive ac = is_some (find_key eq_text drive ac.drivemap)

  -- `erase_key` of a name that is missing changes nothing.
  unfoldable pub unmap_drive : Text → ActiveConnection D S F → ActiveConnection D S F
  unmap_drive name ac = record ac { drivemap = erase_key eq_text name ac.drivemap }

  unfoldable pub unmap_all_drives : ActiveConnection D S F → ActiveConnection D S F
  unmap_all_drives ac = record ac { drivemap = [] }

  unfoldable pub drive_letter_to_name : ℕ → ActiveConnection D S F → Text
  unfolding name_loop
  drive_letter_to_name letter ac = name_loop letter ac.drivemap

  unfoldable pub get_drive_letters : ActiveConnection D S F → Text
  get_drive_letters ac = map (λ e. e.1.drive_letter) ac.drivemap

  -- The connection that the provider has opened, if any, goes into the map.
  unfoldable pub add_connection :
      Host D S
      → Text
      → MountAddressStore D S F
      → Provider × Option Text
      → MountAddressStore D S F × Option (ActiveConnection D S F)
  add_connection h devicename st (p, none) = (record st { provider = p }, none)
  add_connection h devicename st (p, some guid) =
      let ac = new_active_connection h guid in
      (
        record st {
          connectionmap = insert_key eq_text devicename ac st.connectionmap;
          provider = p;
        },
        some ac,
      )

  unfoldable pub open_connection :
      Host D S
      → Text
      → MountAddressStore D S F
      → MountAddressStore D S F × Option (ActiveConnection D S F)
  open_connection h devicename st = elim (find_key eq_text devicename st.connectionmap) [
    | some ac ↦ (st, some ac)
    | none ↦
        let p = (refresh h.manager st.provider).0 in
        add_connection h devicename st (open_loop h devicename 0 p.available_device_guids p)
  ]

  unfoldable pub close_connection : Text → MountAddressStore D S F → MountAddressStore D S F
  close_connection devicename st = record st {
    connectionmap = erase_key eq_text devicename st.connectionmap;
  }

  unfoldable pub is_connection_open : Text → MountAddressStore D S F → Bool
  is_connection_open devicename st = is_some (find_key eq_text devicename st.connectionmap)

  unfoldable pub close_all_connections : MountAddressStore D S F → MountAddressStore D S F
  close_all_connections st = record st { connectionmap = [] }

  unfoldable pub who_loop :
      ℕ → List (Text × ActiveConnection D S F) → Option (Text × ActiveConnection D S F)
  unfolding get_drive_letters finds
  who_loop letter [] = none
  who_loop letter ((name, ac) ∷ m) =
      let rest = who_loop letter m in
      if finds letter (get_drive_letters ac) then some (name, ac) else rest

  -- The loop of `whoHasThisDriveLetter` and `whoHasThisDriveLetterName`.
  unfoldable pub who_has_this_drive_letter :
      ℕ → MountAddressStore D S F → Option (Text × ActiveConnection D S F)
  unfolding who_loop
  who_has_this_drive_letter letter st = who_loop letter st.connectionmap
