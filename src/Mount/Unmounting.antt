-- ===== src/Mount/Unmounting.antt =====
-- mtpmount/MountCommands.cpp: the sub-commands unmount and unplug.
use mtpmount.Base.{ℕ, ◌||◌, none, some, List, [], ◌∷◌, ◌++◌, if◌then◌else◌}
use mtpmount.Base.Text.{Text, eq_text, codes, backslash}
use mtpmount.Base.Digits.{print_base}
use mtpmount.Base.Assoc.{find_key}
use mtpmount.Mount.Ids.{
  Ids, to_storage_enum, decide_id_parameter, decided, undecided, throws_out_of_range,
}
use mtpmount.Mount.Store.{
  Host, DriveWrapper, ActiveConnection, MountAddressStore, is_drive_mapped, unmap_drive,
  unmap_all_drives, drive_letter_to_name, get_drive_letters, close_connection,
  who_has_this_drive_letter,
}
use mtpmount.Mount.Commands.{
  Reply, returns, throws, line, reply, return_success, wrong_parametrization, connection_not_open,
  drive_not_mapped, put_connection, argument, wide_argument, first_byte, upper_letter,
}

-- What is to be unmounted.
pub data Source : Type 0 where
  drive_of : Text → Text → Source
  not_in_use no_source : Source

-- `printMappings`: a storage that has no number yet gets one.
unfoldable pub print_mappings :
    (Text → Text) → Text → Text → List (Text × DriveWrapper) → Ids → Ids × List Text
print_mappings to_utf8 devicename prefix [] ids = (ids, [])
print_mappings to_utf8 devicename prefix ((name, w) ∷ m) ids =
    let numbered = to_storage_enum record { connection = devicename; storage = name } ids in
    let rest = print_mappings to_utf8 devicename prefix m numbered.0 in
    (
      rest.0,
      line (
            prefix
            ++ to_utf8 name
            ++ codes " [ID #"
            ++ print_base 10 numbered.1
            ++ codes "] (on "
            ++ w.drive_letter ∷ codes ":\\)")
          ∷ rest.1,
    )

synced_lines : Text → List Text
synced_lines device =
    line (codes "Syncing " ++ device ++ codes ". DO NOT UNPLUG THIS DEVICE YET!")
    ∷ line (codes "Cache OK")
    ∷ line (codes "All content synced to " ++ device ++ codes ". You may now unplug this device.")
    ∷ []

module _ {D S F : Type 0} where
  unfoldable pub by_letter : ℕ → MountAddressStore D S F → Source
  by_letter letter st = elim (who_has_this_drive_letter letter st) [
    | none ↦ not_in_use
    | some (device, ac) ↦ drive_of device (drive_letter_to_name letter ac)
  ]

  unfoldable pub unmount_source : (Text → Text) → List Text → MountAddressStore D S F → Source
  unfolding by_letter
  unmount_source from_utf8 (p ∷ []) st = elim (decide_id_parameter p st.ids) [
    | throws_out_of_range ↦ no_source
    | decided id ↦ drive_of id.connection id.storage
    | undecided ↦ elim p [ [] ↦ drive_of (from_utf8 []) [] | c ∷ s ↦ by_letter (upper_letter c) st ]
  ]
  unmount_source from_utf8 subparams st =
      drive_of (wide_argument from_utf8 subparams 0) (wide_argument from_utf8 subparams 1)

  unfoldable pub unmount_from :
      Host D S
      → Text
      → Text
      → ActiveConnection D S F
      → MountAddressStore D S F
      → MountAddressStore D S F × Reply
  unfolding synced_lines
  unmount_from h device drive ac st =
      let named = h.to_utf8 device ++ backslash ∷ h.to_utf8 drive in
      if is_drive_mapped drive ac
      then (let rest = unmap_drive drive ac in
          let st' = put_connection device rest st in
          let done = line (named ++ codes " has been unmounted successfully.") in
          if eq_text (get_drive_letters rest) []
          then (
            close_connection device st',
            record {
              output = done ∷ synced_lines (h.to_utf8 device);
              outcome = returns return_success;
            },
          )
          else (
            st',
            record {
              output =
                  done
                  ∷ line (
                      codes "Please mind that "
                      ++ h.to_utf8 device
                      ++ codes " is still in use by other drive mappings")
                  ∷ [];
              outcome = returns return_success;
            },
          ))
      else (let printed = print_mappings h.to_utf8 device (9 ∷ []) ac.drivemap st.ids in
          (
            record st { ids = printed.0 },
            record {
              output = line (named ++ codes " is not mapped. Did you mean...") ∷ printed.1;
              outcome = returns drive_not_mapped;
            },
          ))

  unfoldable pub not_open :
      Host D S → Text → MountAddressStore D S F → MountAddressStore D S F × Reply
  not_open h device st = (
    st,
    reply (h.to_utf8 device ++ codes " does not refer to an open connection. Check for spelling!")
        connection_not_open,
  )

  unfoldable pub unmount_named :
      Host D S → Text → Text → MountAddressStore D S F → MountAddressStore D S F × Reply
  unfolding unmount_from not_open
  unmount_named h device drive st =
      if eq_text device [] || eq_text drive []
      then (
        st,
        reply (codes "Usage: unmount <devicename> <storagename> or unmount <driveletter>")
            wrong_parametrization,
      )
      else (elim (find_key eq_text device st.connectionmap) [
        | none ↦ not_open h device st
        | some ac ↦ unmount_from h device drive ac st
      ])

  unfoldable pub unmount_sourced :
      Host D S → List Text → Source → MountAddressStore D S F → MountAddressStore D S F × Reply
  unmount_sourced h subparams no_source st = (st, record { output = []; outcome = throws })
  unmount_sourced h subparams not_in_use st = (
    st,
    reply
        (codes "Drive "
          ++ first_byte (argument subparams 0)
            ∷ codes ":\\ is currently not in use by this application")
        drive_not_mapped,
  )
  unmount_sourced h subparams (drive_of device drive) st = unmount_named h device drive st

  -- `UnmountSubCommand::executeCommand`
  unfoldable pub unmount_command :
      Host D S → List Text → MountAddressStore D S F → MountAddressStore D S F × Reply
  unmount_command h subparams st =
      unmount_sourced h subparams (unmount_source h.from_utf8 subparams st) st

  unfoldable pub unplug_named :
      Host D S → Text → MountAddressStore D S F → MountAddressStore D S F × Reply
  unfolding not_open synced_lines
  unplug_named h device st = elim (find_key eq_text device st.connectionmap) [
    | none ↦ not_open h device st
    | some ac ↦ (
      close_connection device (put_connection device (unmap_all_drives ac) st),
      record { output = synced_lines (h.to_utf8 device); outcome = returns return_success },
    )
  ]

  -- `TerminateConnectionSubCommand::executeCommand`
  unfoldable pub unplug_command :
      Host D S → List Text → MountAddressStore D S F → MountAddressStore D S F × Reply
  unfolding unplug_named
  unplug_command h (p ∷ []) st = unplug_named h (h.from_utf8 p) st
  unplug_command h subparams st =
      (st, reply (codes "Usage: unplug <devicename>") wrong_parametrization)
