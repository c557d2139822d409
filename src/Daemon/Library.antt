-- ===== src/Daemon/Library.antt =====
-- mtpmount/SubCommandLibrary.cpp and SubCommandLibrary.h: the sub-commands by name, and `daemonMain` of
-- mtpmount/MtpMountEntry.cpp. `W` is what the commands change. The tag and the commit are of a file that the build
-- makes.
pub mod Ordered
use mtpmount.Base.{
  ℕ, zero, suc, ◌+◌, ◌-◌, Bool, true, false, ◌&&◌, Option, none, some, List, [], ◌∷◌, ◌++◌, ltb,
  ◌==◌, if◌then◌else◌, length, drop, map,
}
use mtpmount.Base.Text.{Text, eq_text, lt_text, codes}
use mtpmount.Base.Assoc.{find_key, erase_key}
use mtpmount.Mount.Commands.{
  Outcome, returns, throws, Reply, line, return_success, wrong_parametrization,
}

abbrev pub sub_command_does_not_exist : ℕ
sub_command_does_not_exist = 1

abbrev pub help_invalid_sub_command : ℕ
help_invalid_sub_command = 3

-- What a sub-command does: `help` and `cmdlist` read the library, the others act on `W`.
pub data Action (W : Type 0) : Type 0 where
  help cmd_list : Action W
  acts : (List Text → W → W × Reply) → Action W

pub record SubCommand (W : Type 0) : Type 0 where
  pub command_name : Text
  pub brief_description : Text
  pub full_description : Text
  pub execute : Action W

pub record SubCommandLibrary (W : Type 0) : Type 0 where
  pub sub_commands : List (Text × SubCommand W)
  pub cmd_width_counter : ℕ
  pub exec_name : Text

pub record GitInfo : Type 0 where
  pub tag : Text
  pub commit : Text

-- `insert` of a `std::map`, whose iterators go by the order of the keys.
unfoldable pub insert_ordered : {V : Type 0} → Text → V → List (Text × V) → List (Text × V)
insert_ordered k v [] = (k, v) ∷ []
insert_ordered k v ((j, w) ∷ m) =
    let rest = insert_ordered k v m in
    if eq_text j k then (j, w) ∷ m else if lt_text k j then (k, v) ∷ (j, w) ∷ m else (j, w) ∷ rest

spaces : ℕ → Text
spaces zero = []
spaces (suc n) = b' ' ∷ spaces n

starts_with : Text → Text → Bool
starts_with [] s = true
starts_with (c ∷ p) [] = false
starts_with (c ∷ p) (d ∷ s) = (c == d) && starts_with p s

abbrev exec_name_mark : Text
exec_name_mark = codes "xEXECNAMEx"

-- The replacements in a description: `skip` more characters belong to a mark that was replaced.
replace_marks : Text → ℕ → Text → Text
unfolding starts_with
replace_marks by skip [] = []
replace_marks by (suc skip) (c ∷ s) = replace_marks by skip s
replace_marks by zero (c ∷ s) =
    let kept = replace_marks by zero s in
    let replaced = replace_marks by 9 s in
    if starts_with exec_name_mark (c ∷ s) then by ++ replaced else c ∷ kept

unfoldable pub banner : GitInfo → List Text
banner git =
    (if eq_text git.tag (codes "untagged")
      then line (codes "This is an experimental build of mtpmount at " ++ git.commit)
      else line
          (codes "This is mtpmount, version " ++ git.tag ++ codes " from commit " ++ git.commit))
    ∷ line (codes "This program comes with NO WARRANTY. Usage only at your own risk.")
    ∷ line []
    ∷ []

module _ {W : Type 0} where
  unfoldable pub new_library : SubCommandLibrary W
  new_library = record { sub_commands = []; cmd_width_counter = 0; exec_name = codes "mtpmount" }

  unfoldable pub add_sub_command : SubCommand W → SubCommandLibrary W → SubCommandLibrary W
  add_sub_command cmd lib =
      let new_size = length cmd.command_name in
      record lib {
        sub_commands = insert_ordered cmd.command_name cmd lib.sub_commands;
        cmd_width_counter =
            if ltb lib.cmd_width_counter new_size then new_size else lib.cmd_width_counter;
      }

  unfoldable pub remove_sub_command : SubCommand W → SubCommandLibrary W → SubCommandLibrary W
  remove_sub_command cmd lib = record lib {
    sub_commands = erase_key eq_text cmd.command_name lib.sub_commands;
  }

  command_line : ℕ → SubCommand W → Text
  unfolding spaces
  command_line width cmd =
      line
        (cmd.command_name ++ spaces (width - length cmd.command_name) ++ 9 ∷ cmd.brief_description)

  -- `getCommandList`
  unfoldable pub get_command_list : SubCommandLibrary W → List Text
  unfolding command_line
  get_command_list lib =
      line (codes "All available commands:")
        ∷ map (λ e. command_line lib.cmd_width_counter e.1) lib.sub_commands
      ++ line []
        ∷ line (
            codes "Use "
            ++ lib.exec_name
            ++ codes " help <command> to get a more detailed description of a specific subcommand")
        ∷ []

  -- `getCommandHelp`: `none` if it returns false.
  unfoldable pub get_command_help : Text → SubCommandLibrary W → Option (List Text)
  unfolding replace_marks
  get_command_help cmd lib = elim (find_key eq_text cmd lib.sub_commands) [
    | none ↦ none
    | some c ↦ some (
        line (codes "=== Command " ++ c.command_name ++ codes " ===")
        ∷ line (replace_marks lib.exec_name 0 c.full_description)
        ∷ [])
  ]

  -- `HelpCommand::executeCommand`
  unfoldable pub help_command : List Text → SubCommandLibrary W → Reply
  help_command (cmd ∷ []) lib = elim (get_command_help cmd lib) [
    | none ↦ record { output = []; outcome = returns help_invalid_sub_command }
    | some lines ↦ record { output = lines; outcome = returns return_success }
  ]
  help_command subparams lib = record {
    output = line (codes "Usage: " ++ lib.exec_name ++ codes " help <command>") ∷ [];
    outcome = returns wrong_parametrization;
  }

  -- The virtual method `executeCommand` of a sub-command.
  unfoldable pub run_action : SubCommandLibrary W → Action W → List Text → W → W × Reply
  run_action lib help subparams w = (w, help_command subparams lib)
  run_action lib cmd_list subparams w =
      (w, record { output = get_command_list lib; outcome = returns return_success })
  run_action lib (acts f) subparams w = f subparams w

  unfoldable pub not_found : Text → SubCommandLibrary W → List Text
  not_found cmd lib =
      line (codes "Command " ++ cmd ++ codes " was not found!")
      ∷ line (codes "Run " ++ lib.exec_name ++ codes " cmdlist to get a list of all commands")
      ∷ []

  -- The end of a command: a `std::out_of_range` of its own is caught like that of the map.
  unfoldable pub caught : Text → SubCommandLibrary W → W × Reply → W × List Text × ℕ
  caught cmd lib (w, r) = elim r.outcome [
    | returns code ↦ (w, r.output, code)
    | throws ↦ (w, r.output ++ not_found cmd lib, sub_command_does_not_exist)
  ]

  unfoldable pub execute_command :
      GitInfo → Text → List Text → SubCommandLibrary W → W → W × List Text × ℕ
  execute_command git cmd params lib w = elim (find_key eq_text cmd lib.sub_commands) [
    | none ↦ (w, banner git ++ not_found cmd lib, sub_command_does_not_exist)
    | some c ↦
        let done = caught cmd lib (run_action lib c.execute params w) in
        (done.0, banner git ++ done.1, done.2)
  ]

  -- `daemonMain`: `none` stands for the `std::out_of_range` of a command without words, which
  -- nothing catches.
  unfoldable pub daemon_main :
      GitInfo
      → List Text
      → SubCommandLibrary W × W
      → Option ((SubCommandLibrary W × W) × List Text × ℕ)
  daemon_main git [] (lib, w) = none
  daemon_main git (name ∷ []) (lib, w) =
      let named = record lib { exec_name = name } in
      let done = execute_command git (codes "cmdlist") [] named w in
      some ((named, done.0), done.1, done.2)
  daemon_main git (name ∷ cmd ∷ params) (lib, w) =
      let named = record lib { exec_name = name } in
      let done = execute_command git cmd params named w in some ((named, done.0), done.1, done.2)
