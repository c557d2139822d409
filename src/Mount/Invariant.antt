-- ===== src/Mount/Invariant.antt =====
-- mtpmount/MountCommands.cpp: the stores that the sub-commands lead to.
use mtpmount.Base.{
  ℕ, true, ◌||◌, Option, none, some, List, [], ◌≡◌, ◌≢◌, inl, inr, refl, sym, subst, ◌∙◌, arith,
  Option-cases, Bool-cases,
}
use mtpmount.Base.Text.{Text, eq_text, eq_text_iff}
use mtpmount.Base.Assoc.{find_key, find-insert}
use mtpmount.Mount.Store.{
  Host, ActiveConnection, MountAddressStore, get_available_drives, finds, map_drive,
  get_drive_letters, open_connection, new_active_connection, add_connection, open_loop,
}
use mtpmount.Mount.Commands.{
  chosen, refused, Choice, Target, target, no_target, mount_target, mount_chosen, mount_targeted,
  mount_opened, choose_letter, upper_letter, mount_command, mount_named, mount_on, put_connection,
  close_if_unused,
}
use mtpmount.Mount.Wellformed.{
  letter_of, HasOwnLetters, AreInUse, put-HasOwnLetters, insert-HasOwnLetters,
}
use mtpmount.Provider.{Provider, refresh}
use mtpmount.Mount.Letters.{choose_letter-finds}
use mtpmount.Mount.Gains.{
  Reports, Inv, AreInUseBut, map_drive-Gains, closed-Inv, kept-Inv, letters-full, found-put,
  put-AreInUseBut,
}

module _ {D S F : Type 0} where
  mount_on-Inv :
      (h : Host D S) (device drive : Text) (letter : ℕ) (ac : ActiveConnection D S F)
      (st : MountAddressStore D S F)
      → HasOwnLetters st.connectionmap
      → AreInUseBut device st
      → find_key eq_text device st.connectionmap ≡ some ac
      → ((d n : Text) → letter_of st.connectionmap d n ≢ some letter)
      → Inv (mount_on h device drive letter ac st).0
  unfolding put_connection mount_on close_if_unused
  mount_on-Inv h device drive letter ac st own used f free =
      let gains = map_drive-Gains h drive letter ac (own.drives device ac f) in
      let ac' = (map_drive h drive letter ac).0 in
      let st' = put_connection device ac' st in
      let kept : HasOwnLetters st'.connectionmap =
        put-HasOwnLetters device drive letter ac ac' st.connectionmap own f gains.distinct free
          gains.gained in
      let used' : AreInUseBut device st' = put-AreInUseBut device ac ac' st used f in
      let found : find_key eq_text device st'.connectionmap ≡ some ac' =
        ground (arith, found-put device device ac ac' st f, eq_text_iff device device) in
      elim (Bool-cases (map_drive h drive letter ac).1) [
        | inl m ↦ rw (m, mount_on) (kept-Inv device ac' st' kept used' found (gains.mapped m))
        | inr m ↦ elim (Bool-cases (eq_text (get_drive_letters ac') [])) [
          | inl e ↦ rw (m, mount_on, e, close_if_unused) (closed-Inv device st' kept used')
          | inr e ↦
              rw (m, mount_on, e, close_if_unused)
                (kept-Inv device ac' st' kept used' found (letters-full ac' e))
        ]
      ]

  -- What an attempt to open the connection of a device leaves.
  abbrev Opens :
      Text
      → MountAddressStore D S F
      → MountAddressStore D S F × Option (ActiveConnection D S F)
      → Type 0
  Opens device st (st', none) = st'.connectionmap ≡ st.connectionmap
  Opens device st (st', some ac) =
      HasOwnLetters st'.connectionmap
      × AreInUseBut device st'
      × (find_key eq_text device st'.connectionmap ≡ some ac)
      × ((d n : Text) → letter_of st'.connectionmap d n ≡ letter_of st.connectionmap d n)

  add_connection-Opens :
      (h : Host D S) (device : Text) (st : MountAddressStore D S F) (r : Provider × Option Text)
      → Inv st
      → find_key eq_text device st.connectionmap ≡ none
      → Opens device st (add_connection h device st r)
  unfolding add_connection new_active_connection find_key
  add_connection-Opens h device st (p, none) inv e = refl
  add_connection-Opens h device st (p, some guid) inv e =
      let ac : ActiveConnection D S F = new_active_connection h guid in
      let found =
        λ (d : Text). find-insert eq_text (λ t. t) eq_text_iff device d ac st.connectionmap in
      (
        insert-HasOwnLetters device ac st.connectionmap inv.letters refl,
        λ d a f. ground (arith, inv.in_use d a, found d, eq_text_iff device d),
        ground (arith, found device, e, eq_text_iff device device),
        λ d n. ground (arith, found d, e, eq_text_iff device d),
      )

  open_connection-Opens :
      (h : Host D S) (device : Text) (st : MountAddressStore D S F)
      → Inv st
      → Opens device st (open_connection h device st)
  unfolding open_connection
  open_connection-Opens h device st inv =
      elim (Option-cases (find_key eq_text device st.connectionmap)) [
        | inr (ac, e) ↦
            rw (e, open_connection) (inv.letters, λ d a f. inl (inv.in_use d a f), e, λ d n. refl)
        | inl e ↦
            let p = (refresh h.manager st.provider).0 in
            rw (e, open_connection)
              (add_connection-Opens h device st (open_loop h device 0 p.available_device_guids p)
                inv e)
      ]

  mount_opened-Inv :
      (h : Host D S) (device drive : Text) (letter : ℕ) (st : MountAddressStore D S F)
      (r : MountAddressStore D S F × Option (ActiveConnection D S F))
      → Inv st
      → ((d n : Text) → letter_of st.connectionmap d n ≢ some letter)
      → Opens device st r
      → Inv (mount_opened h device drive letter r).0
  unfolding mount_opened
  mount_opened-Inv h device drive letter st (st', none) inv free same = record {
    letters = subst HasOwnLetters (sym same) inv.letters;
    in_use = subst AreInUse (sym same) inv.in_use;
  }
  mount_opened-Inv h device drive letter st (st', some ac) inv free (own, used, found, same) =
      mount_on-Inv h device drive letter ac st' own used found
        (λ d n e. free d n (sym (same d n) ∙ e))

  mount_named-Inv :
      (h : Host D S) (device drive : Text) (letter : ℕ) (st : MountAddressStore D S F)
      → Inv st
      → ((d n : Text) → letter_of st.connectionmap d n ≢ some letter)
      → Inv (mount_named h device drive letter st).0
  unfolding mount_named
  mount_named-Inv h device drive letter st inv free =
      elim (Bool-cases (eq_text device [] || eq_text drive [])) [
        | inl e ↦ rw (e, mount_named) inv
        | inr e ↦
            rw (e, mount_named)
              (mount_opened-Inv h device drive letter st (open_connection h device st) inv free
                (open_connection-Opens h device st inv))
      ]

  mount_chosen-Inv :
      (h : Host D S) (device drive : Text) (choice : Choice) (st : MountAddressStore D S F)
      → Inv st
      → Reports h st
      → ((c : ℕ) → choice ≡ chosen c → finds c (get_available_drives h.logical_drives) ≡ true)
      → Inv (mount_chosen h device drive choice st).0
  unfolding mount_chosen
  mount_chosen-Inv h device drive (refused r) st inv reports finds = inv
  mount_chosen-Inv h device drive (chosen letter) st inv reports free =
      mount_named-Inv h device drive letter st inv
        (λ d n e. ground (arith, free letter refl, reports d n letter e))

  pub mount_command-Inv :
      (h : Host D S) (subparams : List Text) (st : MountAddressStore D S F)
      → Inv st
      → Reports h st
      → Inv (mount_command h subparams st).0
  unfolding mount_command mount_targeted
  mount_command-Inv h subparams st inv reports =
      targeted (mount_target h.from_utf8 subparams st.ids)
    where
      targeted : (t : Target) → Inv (mount_targeted h t st).0
      targeted no_target = inv
      targeted (target device drive letter) =
          mount_chosen-Inv h device drive (choose_letter h.logical_drives (upper_letter letter)) st
            inv reports (choose_letter-finds h.logical_drives (upper_letter letter))
