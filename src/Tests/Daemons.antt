-- ===== src/Tests/Daemons.antt =====
-- The daemon with its sub-commands, over the host of `Mounts`.
use mtpmount.Base.{
  ℕ, ◌≡◌, refl, true, false, none, some, List, [], ◌∷◌, ◌++◌, drop, arith, if◌then◌else◌, All, Bool,
  not, ◌&&◌, ◌==◌, ltb, length,
}
use mtpmount.Base.Text.{Text, Lacks, codes, eq_text}
use mtpmount.Base.Assoc.{find_key}
use mtpmount.Token.{send_command, quote}
use mtpmount.Base.Strto.{strto}
use mtpmount.Mount.Commands.{line}
use mtpmount.Mount.Ids.{stoul, out_of_range}
use mtpmount.Mount.Store.{MountAddressStore}
use mtpmount.Mount.Reachable.{new_store}
use mtpmount.Daemon.Library.{
  GitInfo, SubCommandLibrary, new_library, insert_ordered, add_sub_command, execute_command, banner,
  not_found, daemon_main, sub_command_does_not_exist,
}
use mtpmount.Daemon.Library.Ordered.{IsLibrary, find-add_sub_command}
use mtpmount.Daemon.Commands.{
  help_object, cmd_list_object, unmount_object, unplug_object, list_object, mount_object,
  mount-out_of_range, daemon_library,
}
use mtpmount.Daemon.Ipc.{slot_size, listen, deliver, answers, command}
use mtpmount.Daemon.Ipc.RoundTrip.{command-send_command, Fits}
use mtpmount.Tests.Mounts.{host, provider}

abbrev git : GitInfo
git = record { tag = codes "1.0"; commit = codes "abc" }

abbrev store : MountAddressStore Unit Unit Unit
store = new_store provider

abbrev empty : SubCommandLibrary (MountAddressStore Unit Unit Unit)
empty = new_library

empty-IsLibrary : IsLibrary empty
unfolding new_library find_key
empty-IsLibrary = record { ordered = tt; narrow = λ k f. absurd (f refl) }

find-add_sub_command_example :
    ((j : Text)
      → find_key eq_text j (add_sub_command (mount_object {F = Unit} host) empty).sub_commands
        ≡ (elim (find_key eq_text j empty.sub_commands) [
          | some c ↦ some c
          | none ↦
              if eq_text (mount_object {F = Unit} host).command_name j
              then some (mount_object {F = Unit} host)
              else none
        ]))
    × IsLibrary (add_sub_command (mount_object {F = Unit} host) empty)
find-add_sub_command_example =
    find-add_sub_command (mount_object {F = Unit} host) empty empty-IsLibrary

abbrev library : SubCommandLibrary (MountAddressStore Unit Unit Unit)
library = daemon_library host

has_mount : find_key eq_text (codes "mount") library.sub_commands ≡ some (mount_object host)
unfolding daemon_library add_sub_command insert_ordered find_key new_library help_object
    cmd_list_object mount_object unmount_object unplug_object list_object
has_mount = refl

too_large : stoul (codes "4294967296") ≡ out_of_range
unfolding stoul strto
too_large = refl

mount-out_of_range_example :
    execute_command git (codes "mount") (codes "#4294967296" ∷ []) library store
    ≡ (store, banner git ++ not_found (codes "mount") library, sub_command_does_not_exist)
mount-out_of_range_example =
    mount-out_of_range git host b'4' (codes "294967296") [] library store has_mount too_large

-- What the daemon answers to a command that it does not have.
abbrev unknown : List Text
unknown = banner git ++ not_found (codes "moun") record library { exec_name = codes "m" }

lacks_bool : ℕ → Text → Bool
lacks_bool b [] = true
lacks_bool b (c ∷ s) = not (c == b) && lacks_bool b s

lacks : (b : ℕ) (s : Text) → lacks_bool b s ≡ true → Lacks b s
unfolding lacks_bool
lacks b [] h = tt
lacks b (c ∷ s) h = ground (arith, lacks b s)

all_fit : List Text → Bool
unfolding lacks_bool
all_fit [] = true
all_fit (s ∷ ss) = (ltb (length s) slot_size && lacks_bool 0 s) && all_fit ss

fit : (ss : List Text) → all_fit ss ≡ true → All Fits ss
unfolding all_fit
fit [] h = tt
fit (s ∷ ss) h = ground (arith, lacks 0 s, fit ss)

message-Fits : All Fits (drop 1 (send_command (codes "m" ∷ codes "moun" ∷ [])) ∷ [])
unfolding all_fit send_command
message-Fits = fit (drop 1 (send_command (codes "m" ∷ codes "moun" ∷ [])) ∷ []) refl

unknown-Fits : All Fits unknown
unfolding all_fit banner not_found line
unknown-Fits = fit unknown refl

no_quotes : All (Lacks quote) (codes "m" ∷ codes "moun" ∷ [])
unfolding lacks_bool
no_quotes = (lacks quote (codes "m") refl, (lacks quote (codes "moun") refl, tt))

runs :
    daemon_main git (codes "m" ∷ codes "moun" ∷ []) (library, store)
    ≡ some ((record library { exec_name = codes "m" }, store), unknown, 1)
unfolding daemon_main execute_command daemon_library add_sub_command insert_ordered find_key
    new_library help_object cmd_list_object mount_object unmount_object unplug_object list_object
runs = refl

command-send_command_example :
    (listen
        (daemon_main git)
        (deliver (send_command (codes "m" ∷ codes "moun" ∷ [])))
        (library, store)
      ≡ (answers unknown 1, some ((record library { exec_name = codes "m" }, store), false)))
    × (command (daemon_main git) (send_command (codes "m" ∷ codes "moun" ∷ [])) (library, store)
        ≡ some (unknown, 1))
command-send_command_example =
    command-send_command (daemon_main git) (codes "m" ∷ codes "moun" ∷ []) (library, store)
      (record library { exec_name = codes "m" }, store) unknown 1 no_quotes message-Fits.0 runs
      unknown-Fits (omega arith)
