-- ===== src/Mount/Listing.antt =====
-- mtpmount/MountCommands.cpp: the sub-command list (`printAllActive`, `printAllAvailable`).
pub mod Balance
use mtpmount.Base.{
  ℕ, ◌+◌, Bool, true, false, Option, none, some, List, [], ◌∷◌, ◌++◌, if◌then◌else◌, or_else,
  length, is_some, ◌==◌,
}
use mtpmount.Base.Text.{Text, eq_text, codes}
use mtpmount.Base.Digits.{print_base}
use mtpmount.Base.Assoc.{find_key}
use mtpmount.Provider.{
  Manager, Provider, refresh, get_device_count, get_friendly_name_of_device,
  open_connection_to_device, close_connection,
}
use mtpmount.Mount.Ids.{Ids, to_storage_enum}
use mtpmount.Mount.Store.{Host, DriveWrapper, ActiveConnection, MountAddressStore, is_drive_mapped}
use mtpmount.Mount.Commands.{Reply, returns, line, reply, return_success, wrong_parametrization}
use mtpmount.Mount.Unmounting.{print_mappings}

-- A storage of a device with its number, which it gets if it has none; `mark` says what is printed
-- behind it.
storage_lines : (Text → Text) → Text → (Text → Text) → List Text → Ids → Ids × List Text
storage_lines to_utf8 device mark [] ids = (ids, [])
storage_lines to_utf8 device mark (name ∷ names) ids =
    let numbered = to_storage_enum record { connection = device; storage = name } ids in
    let rest = storage_lines to_utf8 device mark names numbered.0 in
    (
      rest.0,
      line (
            codes " |-- Storage "
            ++ to_utf8 name
            ++ codes " [ID #"
            ++ print_base 10 numbered.1
            ++ codes "]"
            ++ mark name)
          ∷ rest.1,
    )

-- The first line of an open device ends before its storages; else it begins what follows.
joined_to : Bool → Text → List Text → List Text
joined_to true head lines = line (head ++ codes "is currently open") ∷ lines
joined_to false head [] = head ∷ []
joined_to false head (l ∷ lines) = (head ++ l) ∷ lines

module _ {D S F : Type 0} where
  unfoldable pub active_loop :
      (Text → Text) → List (Text × ActiveConnection D S F) → Ids → Ids × List Text
  active_loop to_utf8 [] ids = (ids, [])
  active_loop to_utf8 ((device, ac) ∷ m) ids =
      let printed = print_mappings to_utf8 device (9 ∷ codes " |-- Storage ") ac.drivemap ids in
      let rest = active_loop to_utf8 m printed.0 in
      (rest.0, line (9 ∷ codes "Device " ++ to_utf8 device ++ codes ":") ∷ printed.1 ++ rest.1)

  unfoldable pub print_all_active :
      Host D S → MountAddressStore D S F → MountAddressStore D S F × List Text
  print_all_active h st =
      let printed = active_loop h.to_utf8 st.connectionmap st.ids in
      (record st { ids = printed.0 }, printed.1)

  mounted_mark : ActiveConnection D S F → Text → Text
  mounted_mark ac name =
      if is_drive_mapped name ac then codes " (is mounted)" else codes " (is not mounted)"

  -- What is printed of the storages of a device that could be opened.
  storages_of :
      Host D S → Text → Option (ActiveConnection D S F) → List Text → Ids → Ids × List Text
  unfolding storage_lines mounted_mark
  storages_of h device (some ac) [] ids = (
    ids,
    line (codes "Device does not contain any drives. Therefore no connection should be open.") ∷ [],
  )
  storages_of h device (some ac) (name ∷ names) ids =
      storage_lines h.to_utf8 device (mounted_mark ac) (name ∷ names) ids
  storages_of h device none [] ids = (ids, line (codes "Contains no drives or is locked") ∷ [])
  storages_of h device none (name ∷ names) ids =
      let printed = storage_lines h.to_utf8 device (λ name. codes " ") (name ∷ names) ids in
      (
        printed.0,
        line (
              codes "Contains "
              ++ print_base 10 (length (name ∷ names))
              ++ codes " storages that can be mounted")
            ∷ printed.1,
      )

  not_opened : Option (ActiveConnection D S F) → List Text
  not_opened (some ac) = line (codes "Cannot open connection to already connected device!") ∷ []
  not_opened none = line (codes "Cannot connect to device") ∷ []

  -- A device with the result of opening it. The connection is closed before its storages are listed.
  unfoldable pub device_listed :
      Host D S
      → Text
      → Option (ActiveConnection D S F)
      → MountAddressStore D S F
      → Provider × Option Text
      → MountAddressStore D S F × List Text
  unfolding storages_of not_opened
  device_listed h device active st (p, none) = (record st { provider = p }, not_opened active)
  device_listed h device active st (p, some guid) =
      let printed = storages_of h device active (h.mappable_drive_names guid false) st.ids in
      (record st { ids = printed.0; provider = close_connection guid p }, printed.1)

  -- One device of the list. A name that cannot be read is empty. The text "Connection ... : " and
  -- what follows it make one line.
  unfoldable pub device_lines :
      Host D S → ℕ → MountAddressStore D S F → MountAddressStore D S F × List Text
  unfolding joined_to
  device_lines h i st =
      let name = or_else (get_friendly_name_of_device h.manager i st.provider) [] in
      let active = find_key eq_text name st.connectionmap in
      let listed =
        device_listed h name active st (open_connection_to_device h.manager i st.provider) in
      (
        listed.0,
        joined_to (is_some active) (codes "Connection " ++ h.to_utf8 name ++ codes ": ") listed.1,
      )

  unfoldable pub available_loop :
      Host D S → ℕ → List Text → MountAddressStore D S F → MountAddressStore D S F × List Text
  available_loop h i [] st = (st, [])
  available_loop h i (guid ∷ guids) st =
      let printed = device_lines h i st in
      let rest = available_loop h (i + 1) guids printed.0 in (rest.0, printed.1 ++ rest.1)

  unfoldable pub print_all_available :
      Host D S → MountAddressStore D S F → MountAddressStore D S F × List Text
  print_all_available h st =
      let p = (refresh h.manager st.provider).0 in
      let refreshed = record st { provider = p } in
      if get_device_count p == 0
      then (refreshed, line (codes "There are currently no MTP devices connected to this PC!") ∷ [])
      else available_loop h 0 p.available_device_guids refreshed

  -- `ListDrivesSubCommand::executeCommand`
  unfoldable pub list_command :
      Host D S → List Text → MountAddressStore D S F → MountAddressStore D S F × Reply
  list_command h (p ∷ []) st =
      let mapped = print_all_active h st in
      let available = print_all_available h st in
      if eq_text p (codes "active")
      then (
        mapped.0,
        record {
          output =
              line (codes "Active Connections and Mappings:") ∷ mapped.1
              ++ line (
                  codes
                    "Use the unmount or unplug command to remove mappings or terminate connections")
                ∷ [];
          outcome = returns return_success;
        },
      )
      else if eq_text p (codes "available")
      then (
        available.0,
        record {
          output =
              line (codes "Available Connections and Storage Media:") ∷ available.1
              ++ line (codes "Use mount command to make one of them a windows removable drive")
                ∷ [];
          outcome = returns return_success;
        },
      )
      else (st, reply (codes "Usage: list (active|available)") wrong_parametrization)
  list_command h subparams st =
      (st, reply (codes "Usage: list (active|available)") wrong_parametrization)
