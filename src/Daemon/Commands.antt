-- ===== src/Daemon/Commands.antt =====
-- mtpmount/MountCommands.cpp and SubCommandLibrary.h: the sub-commands that the daemon has, with their
-- names and descriptions. `h` is what the host answers while a command runs.
use mtpmount.Base.{ℕ, some, List, ◌∷◌, ◌++◌, ◌≡◌, arith}
use mtpmount.Base.Text.{Text, eq_text, codes}
use mtpmount.Base.Assoc.{find_key}
use mtpmount.Mount.Ids.{stoul, out_of_range, decide_id_parameter}
use mtpmount.Mount.Store.{Host, MountAddressStore}
use mtpmount.Mount.Commands.{mount_command, mount_target, mount_targeted}
use mtpmount.Mount.Unmounting.{unmount_command, unplug_command}
use mtpmount.Mount.Listing.{list_command}
use mtpmount.Daemon.Library.{
  help, cmd_list, acts, SubCommand, SubCommandLibrary, GitInfo, new_library, add_sub_command,
  execute_command, banner, not_found, run_action, caught, sub_command_does_not_exist,
}

module _ {D S F : Type 0} where
  -- `defActivateSubCommand` makes the objects, whose constructor adds them to the library.
  unfoldable pub help_object : SubCommand (MountAddressStore D S F)
  help_object = record {
    command_name = codes "help";
    brief_description = codes "shows detailed information and usage for a specific subcommand";
    full_description =
        codes
          "shows detailed information and usage for a specific subcommand.\nuse: xEXECNAMEx help <subcommand>\nrun mtpmount cmdlist to get a list of all available subcommands";
    execute = help;
  }

  unfoldable pub cmd_list_object : SubCommand (MountAddressStore D S F)
  cmd_list_object = record {
    command_name = codes "cmdlist";
    brief_description = codes "Does the thing that is currently happening";
    full_description = codes "Shows a list of all available subcommands";
    execute = cmd_list;
  }

  unfoldable pub mount_object : Host D S → SubCommand (MountAddressStore D S F)
  mount_object h = record {
    command_name = codes "mount";
    brief_description = codes "mount MTP-connected storage media as removable drive";
    full_description =
        codes
          "mount MTP-connected storage media as removable drive\nUsage: xEXECNAMEx mount <devicename> <storagename> (<driveletter>)\nor xEXECNAMEx mount #<device-id> (<driveletter>)\nobtain available names (or ID) using xEXECNAMEx list available";
    execute = acts (mount_command h);
  }

  unfoldable pub unmount_object : Host D S → SubCommand (MountAddressStore D S F)
  unmount_object h = record {
    command_name = codes "unmount";
    brief_description = codes "unmount drives/storage media mounted by this program";
    full_description =
        codes
          "unmount drives/storage media mounted by this program\nUsage: xEXECNAMEx unmount <devicename> <storagename> or unmount <driveletter>\nor xEXECNAMEx unmount #<device-id>\nobtain available names, driveletters or IDs using xEXECNAMEx list active";
    execute = acts (unmount_command h);
  }

  unfoldable pub unplug_object : Host D S → SubCommand (MountAddressStore D S F)
  unplug_object h = record {
    command_name = codes "unplug";
    brief_description = codes "disconnects a connected device to make it ready to be unplugged";
    full_description =
        codes
          "This command removes all mapped drives which are located on a given device\nand ensures all changed content has been synced to the device.\nUse this command before unplugging a device.\nUsage: xEXECNAMEx unplug <devicename>";
    execute = acts (unplug_command h);
  }

  unfoldable pub list_object : Host D S → SubCommand (MountAddressStore D S F)
  list_object h = record {
    command_name = codes "list";
    brief_description =
        codes "lists all drives mounted (active) or mountable (available) by this program";
    full_description =
        codes "lists all drives mounted (active) or mountable (available) by this program";
    execute = acts (list_command h);
  }

  unfoldable pub daemon_library : Host D S → SubCommandLibrary (MountAddressStore D S F)
  daemon_library h = add_sub_command (list_object h) (
      add_sub_command (unplug_object h) (
        add_sub_command (unmount_object h) (
          add_sub_command (mount_object h)
            (add_sub_command cmd_list_object (add_sub_command help_object new_library)))))

  -- A number of a storage from 2^32 on, behind `#`, makes mount say that there is no such command, and
  -- return the code of a command that does not exist, although the library has mount; the store stays
  -- as it is.
  pub mount-out_of_range :
      (git : GitInfo) (h : Host D S) (c : ℕ) (s : Text) (params : List Text)
      (lib : SubCommandLibrary (MountAddressStore D S F)) (st : MountAddressStore D S F)
      → find_key eq_text (codes "mount") lib.sub_commands ≡ some (mount_object h)
      → stoul (c ∷ s) ≡ out_of_range
      → execute_command git (codes "mount") ((b'#' ∷ c ∷ s) ∷ params) lib st
        ≡ (st, banner git ++ not_found (codes "mount") lib, sub_command_does_not_exist)
  unfolding execute_command run_action mount_object mount_command mount_target mount_targeted
      decide_id_parameter caught
  mount-out_of_range git h c s params lib st f big = ground (arith, f, big)
