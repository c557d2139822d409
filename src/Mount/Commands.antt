-- ===== src/Mount/Commands.antt =====
-- mtpmount/MountCommands.cpp: the sub-commands mount, unmount and unplug, with the codes of
-- mtpmount/ErrorReturnCodes.h. Each line that is written to the output is one text. A command returns
-- a code or ends with `std::out_of_range`, which decideIdParameter lets through. An argument is a
-- list of bytes; `char` is signed, so that a byte from 128 is below 'A'.
use mtpmount.Base.{
  ℕ, ◌-◌, not, ◌&&◌, ◌||◌, Option, none, some, List, [], ◌∷◌, ◌++◌, ◌==◌, ltb, if◌then◌else◌,
  or_else, get_elem?,
}
use mtpmount.Base.Text.{Text, eq_text, codes, backslash}
use mtpmount.Base.Assoc.{alter_key}
use mtpmount.Mount.Ids.{Ids, decide_id_parameter, decided, undecided, throws_out_of_range}
use mtpmount.Mount.Store.{
  Host, ActiveConnection, MountAddressStore, get_available_drives, finds, map_drive,
  get_drive_letters, open_connection, close_connection,
}

abbrev pub return_success : ℕ
return_success = 0

abbrev pub wrong_parametrization : ℕ
wrong_parametrization = 2

abbrev pub no_more_drive_letters : ℕ
no_more_drive_letters = 4

abbrev pub connection_fail : ℕ
connection_fail = 5

abbrev pub storage_unavailable : ℕ
storage_unavailable = 6

abbrev pub not_a_drive_letter : ℕ
not_a_drive_letter = 7

abbrev pub drive_letter_occupied : ℕ
drive_letter_occupied = 8

abbrev pub connection_not_open : ℕ
connection_not_open = 9

abbrev pub drive_not_mapped : ℕ
drive_not_mapped = 10

pub data Outcome : Type 0 where
  returns : ℕ → Outcome
  throws : Outcome

pub record Reply : Type 0 where
  pub output : List Text
  pub outcome : Outcome

-- A line, as `std::endl` ends it.
unfoldable pub line : Text → Text
line t = t ++ 10 ∷ []

abbrev pub reply : Text → ℕ → Reply
reply t code = record { output = line t ∷ []; outcome = returns code }

abbrev pub argument : List Text → ℕ → Text
argument subparams i = or_else (get_elem? subparams i) []

-- `stringToWstring` of an argument, the empty text if there is none.
abbrev pub wide_argument : (Text → Text) → List Text → ℕ → Text
wide_argument from_utf8 subparams i = elim (get_elem? subparams i) [
  | none ↦ []
  | some t ↦ from_utf8 t
]

-- The first byte of an argument, 0 if there is none.
unfoldable pub first_byte : Text → ℕ
first_byte [] = 0
first_byte (c ∷ s) = c

unfoldable pub upper_letter : ℕ → ℕ
upper_letter c = if ltb b'Z' c && ltb c 128 then c - (b'a' - b'A') else c

-- What the parameters name: a device, a storage and a letter.
pub data Target : Type 0 where
  target : Text → Text → ℕ → Target
  no_target : Target

unfoldable pub mount_target : (Text → Text) → List Text → Ids → Target
mount_target from_utf8 subparams ids =
    let plain =
      target (wide_argument from_utf8 subparams 0) (wide_argument from_utf8 subparams 1)
        (first_byte (argument subparams 2)) in
    elim (decide_id_parameter (argument subparams 0) ids) [
      | undecided ↦ plain
      | decided id ↦ target id.connection id.storage (first_byte (argument subparams 1))
      | throws_out_of_range ↦ no_target
    ]

-- The letter that is used, or what is said instead.
pub data Choice : Type 0 where
  chosen : ℕ → Choice
  refused : Reply → Choice

unfoldable pub last_or : ℕ → Text → ℕ
last_or c [] = c
last_or c (d ∷ s) = last_or d s

-- The last of the free letters.
unfoldable pub choose_free : Text → Choice
choose_free [] = refused (
    reply (codes "There are no free drive letters available! Mounting not possible.")
      no_more_drive_letters)
choose_free (c ∷ s) = chosen (upper_letter (last_or c s))

unfoldable pub choose_letter : ℕ → ℕ → Choice
choose_letter logical_drives letter =
    let available = get_available_drives logical_drives in
    if letter == 0
    then choose_free available
    else if ltb letter b'A' || ltb b'Z' letter
    then refused (reply (letter ∷ codes " cannot be used drive letter!") not_a_drive_letter)
    else if not (finds letter available)
    then refused (
        reply
          (letter
            ∷ codes
                ":\\ is already used. Run the same command without the drive letter parameter to use an unused drive!")
          drive_letter_occupied)
    else chosen letter

module _ {D S F : Type 0} where
  -- The connection in the store is the object that `ac` is a copy of.
  unfoldable pub put_connection :
      Text → ActiveConnection D S F → MountAddressStore D S F → MountAddressStore D S F
  put_connection device ac st = record st {
    connectionmap = alter_key eq_text device (λ old. ac) st.connectionmap;
  }

  unfoldable pub close_if_unused :
      Text → ActiveConnection D S F → MountAddressStore D S F → MountAddressStore D S F
  close_if_unused device ac st =
      if eq_text (get_drive_letters ac) [] then close_connection device st else st

  unfoldable pub mount_on :
      Host D S
      → Text
      → Text
      → ℕ
      → ActiveConnection D S F
      → MountAddressStore D S F
      → MountAddressStore D S F × Reply
  unfolding put_connection close_if_unused
  mount_on h device drive letter ac st =
      let mapped = map_drive h drive letter ac in
      let st' = put_connection device mapped.0 st in
      if mapped.1
      then (
        st',
        reply
            (codes "Drive "
              ++ letter ∷ codes ":\\ is now "
              ++ h.to_utf8 device
              ++ backslash ∷ h.to_utf8 drive
              ++ codes
                  ". Don't forget to unmount the drive (using unmount command) before disconnecting your device")
            return_success,
      )
      else (
        close_if_unused device mapped.0 st',
        reply
            (codes "Did not find any storage media named "
              ++ h.to_utf8 drive
              ++ codes " on "
              ++ h.to_utf8 device
              ++ codes ". This might be due to wrong spelling or your device not being unlocked.")
            storage_unavailable,
      )

  unfoldable pub mount_opened :
      Host D S
      → Text
      → Text
      → ℕ
      → MountAddressStore D S F × Option (ActiveConnection D S F)
      → MountAddressStore D S F × Reply
  mount_opened h device drive letter (st, some ac) = mount_on h device drive letter ac st
  mount_opened h device drive letter (st, none) = (
    st,
    reply
        (codes "Cannot establish connection to device. Is "
          ++ h.to_utf8 device
          ++ codes " really connected (and spelled correctly)?")
        connection_fail,
  )

  unfoldable pub mount_named :
      Host D S → Text → Text → ℕ → MountAddressStore D S F → MountAddressStore D S F × Reply
  mount_named h device drive letter st =
      if eq_text device [] || eq_text drive []
      then (
        st,
        reply (codes "Usage: mount <devicename> <storagename> (<driveletter>)")
            wrong_parametrization,
      )
      else mount_opened h device drive letter (open_connection h device st)

  unfoldable pub mount_chosen :
      Host D S → Text → Text → Choice → MountAddressStore D S F → MountAddressStore D S F × Reply
  mount_chosen h device drive (refused r) st = (st, r)
  mount_chosen h device drive (chosen letter) st = mount_named h device drive letter st

  unfoldable pub mount_targeted :
      Host D S → Target → MountAddressStore D S F → MountAddressStore D S F × Reply
  mount_targeted h no_target st = (st, record { output = []; outcome = throws })
  mount_targeted h (target device drive letter) st =
      mount_chosen h device drive (choose_letter h.logical_drives (upper_letter letter)) st

  -- `MountSubCommand::executeCommand`
  unfoldable pub mount_command :
      Host D S → List Text → MountAddressStore D S F → MountAddressStore D S F × Reply
  mount_command h subparams st = mount_targeted h (mount_target h.from_utf8 subparams st.ids) st
