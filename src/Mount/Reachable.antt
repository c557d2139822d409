-- ===== src/Mount/Reachable.antt =====
-- mtpmount/MountCommands.cpp: unmount and unplug keep the invariant, and the stores that the commands
-- lead to.
use mtpmount.Base.{
  ℕ, ◌||◌, some, List, [], ◌∷◌, ◌≡◌, ◌≢◌, inl, inr, arith, sym, subst, Option-cases, Bool-cases,
}
use mtpmount.Base.Text.{Text, eq_text, eq_text_iff}
use mtpmount.Base.Assoc.{find_key, find-erase, HasDistinctKeys, HasDistinctKeys-erase}
use mtpmount.Mount.Ids.{no_ids}
use mtpmount.Provider.{Provider}
use mtpmount.Mount.Store.{
  Host, ActiveConnection, MountAddressStore, unmap_drive, unmap_all_drives, get_drive_letters,
  close_all_connections, is_drive_mapped,
}
use mtpmount.Mount.Commands.{mount_command, put_connection}
use mtpmount.Mount.Unmounting.{
  Source, drive_of, not_in_use, no_source, unmount_command, unmount_named, unmount_from,
  unmount_source, unmount_sourced, not_open, unplug_command, unplug_named,
}
use mtpmount.Mount.Listing.{list_command}
use mtpmount.Mount.Listing.Balance.{list_command-connectionmap}
use mtpmount.Mount.Wellformed.{letter_in, letter_of, HasOwnLetters, AreInUse, shrink-HasOwnLetters}
use mtpmount.Mount.Gains.{
  Reports, Inv, AreInUseBut, closed-Inv, kept-Inv, letters-full, found-put, put-AreInUseBut,
}
use mtpmount.Mount.Invariant.{mount_command-Inv}

module _ {D S F : Type 0} where
  unmap_drive-letters :
      (drive : Text) (ac : ActiveConnection D S F) (n : Text) (c : ℕ)
      → HasDistinctKeys eq_text ac.drivemap
      → letter_in (unmap_drive drive ac) n ≡ some c
      → letter_in ac n ≡ some c
  unfolding unmap_drive
  unmap_drive-letters drive ac n c d h =
      ground (arith, find-erase eq_text (λ t. t) eq_text_iff drive n ac.drivemap d)

  unmount_from-Inv :
      (h : Host D S) (device drive : Text) (ac : ActiveConnection D S F)
      (st : MountAddressStore D S F)
      → Inv st
      → find_key eq_text device st.connectionmap ≡ some ac
      → Inv (unmount_from h device drive ac st).0
  unfolding unmount_from put_connection unmap_drive
  unmount_from-Inv h device drive ac st inv f =
      let rest = unmap_drive drive ac in
      let st' = put_connection device rest st in
      let d = inv.letters.drives device ac f in
      let kept : HasOwnLetters st'.connectionmap =
        shrink-HasOwnLetters device ac rest st.connectionmap inv.letters f
          (HasDistinctKeys-erase eq_text (λ t. t) eq_text_iff drive ac.drivemap d)
          (λ n c g. unmap_drive-letters drive ac n c d g) in
      let used : AreInUseBut device st' =
        put-AreInUseBut device ac rest st (λ d a g. inl (inv.in_use d a g)) f in
      let found : find_key eq_text device st'.connectionmap ≡ some rest =
        ground (arith, found-put device device ac rest st f, eq_text_iff device device) in
      elim (Bool-cases (is_drive_mapped drive ac)) [
        | inr m ↦ rw (m, unmount_from) record { letters = inv.letters; in_use = inv.in_use }
        | inl m ↦ elim (Bool-cases (eq_text (get_drive_letters rest) [])) [
          | inl e ↦ rw (m, unmount_from, e) (closed-Inv device st' kept used)
          | inr e ↦
              rw (m, unmount_from, e)
                (kept-Inv device rest st' kept used found (letters-full rest e))
        ]
      ]

  unmount_named-Inv :
      (h : Host D S) (device drive : Text) (st : MountAddressStore D S F)
      → Inv st
      → Inv (unmount_named h device drive st).0
  unfolding unmount_named not_open
  unmount_named-Inv h device drive st inv =
      elim (Bool-cases (eq_text device [] || eq_text drive [])) [
        | inl e ↦ rw (e, unmount_named) inv
        | inr e ↦ elim (Option-cases (find_key eq_text device st.connectionmap)) [
          | inl f ↦ rw (e, unmount_named, f) inv
          | inr (ac, f) ↦ rw (e, unmount_named, f) (unmount_from-Inv h device drive ac st inv f)
        ]
      ]

  pub unmount_command-Inv :
      (h : Host D S) (subparams : List Text) (st : MountAddressStore D S F)
      → Inv st
      → Inv (unmount_command h subparams st).0
  unfolding unmount_command unmount_sourced
  unmount_command-Inv h subparams st inv = sourced (unmount_source h.from_utf8 subparams st)
    where
      sourced : (source : Source) → Inv (unmount_sourced h subparams source st).0
      sourced no_source = inv
      sourced not_in_use = inv
      sourced (drive_of device drive) = unmount_named-Inv h device drive st inv

  unplug_named-Inv :
      (h : Host D S) (device : Text) (st : MountAddressStore D S F)
      → Inv st
      → Inv (unplug_named h device st).0
  unfolding unplug_named not_open put_connection unmap_all_drives find_key
  unplug_named-Inv h device st inv =
      elim (Option-cases (find_key eq_text device st.connectionmap)) [
        | inl f ↦ rw (unplug_named, f) inv
        | inr (ac, f) ↦
            let none_left : ActiveConnection D S F = unmap_all_drives ac in
            rw (unplug_named, f)
              (closed-Inv device (put_connection device none_left st)
                (shrink-HasOwnLetters device ac none_left st.connectionmap inv.letters f tt
                  (λ n c g. cc))
                (put-AreInUseBut device ac none_left st (λ d a g. inl (inv.in_use d a g)) f))
      ]

  pub unplug_command-Inv :
      (h : Host D S) (subparams : List Text) (st : MountAddressStore D S F)
      → Inv st
      → Inv (unplug_command h subparams st).0
  unfolding unplug_command
  unplug_command-Inv h [] st inv = inv
  unplug_command-Inv h (p ∷ []) st inv = unplug_named-Inv h (h.from_utf8 p) st inv
  unplug_command-Inv h (p ∷ q ∷ rest) st inv = inv

  abbrev pub new_store : Provider → MountAddressStore D S F
  new_store p = record { connectionmap = []; ids = no_ids; provider = p }

  pub data Step (st : MountAddressStore D S F) : MountAddressStore D S F → Type 0 where
    mounts :
        (h : Host D S) (subparams : List Text)
        → Reports h st
        → Step st (mount_command h subparams st).0
    unmounts : (h : Host D S) (subparams : List Text) → Step st (unmount_command h subparams st).0
    lists : (h : Host D S) (subparams : List Text) → Step st (list_command h subparams st).0
    unplugs : (h : Host D S) (subparams : List Text) → Step st (unplug_command h subparams st).0
    closes : Step st (close_all_connections st)

  pub data Reach : MountAddressStore D S F → Type 0 where
    begin : (p : Provider) → Reach (new_store p)
    step : {st st' : MountAddressStore D S F} → Reach st → Step st st' → Reach st'

  Step-Inv : (st st' : MountAddressStore D S F) → Step st st' → Inv st → Inv st'
  unfolding close_all_connections find_key
  Step-Inv st st' (mounts h subparams reports) inv = mount_command-Inv h subparams st inv reports
  Step-Inv st st' (unmounts h subparams) inv = unmount_command-Inv h subparams st inv
  Step-Inv st st' (unplugs h subparams) inv = unplug_command-Inv h subparams st inv
  Step-Inv st st' (lists h subparams) inv =
      let same = list_command-connectionmap h subparams st in
      record {
        letters = subst HasOwnLetters (sym same) inv.letters;
        in_use = subst AreInUse (sym same) inv.in_use;
      }
  Step-Inv st st' closes inv = record {
    letters = record { distinct = tt; drives = λ d ac f. cc; own = λ d e n k c f g. cc };
    in_use = λ d ac f. cc;
  }

  pub Reach-Inv : (st : MountAddressStore D S F) → Reach st → Inv st
  unfolding find_key
  Reach-Inv st (begin p) = record {
    letters = record { distinct = tt; drives = λ d ac f. cc; own = λ d e n k c f g. cc };
    in_use = λ d ac f. cc;
  }
  Reach-Inv st' (step {st} r s) = Step-Inv st st' s (Reach-Inv st r)

  -- However commands are given, to a daemon of which Windows reports every letter that it has
  -- mounted: two storages that are mounted on one letter are one storage of one device, and a
  -- connection that is open has a drive that is mounted.
  pub letters_are_own :
      (st : MountAddressStore D S F)
      → Reach st
      → ((d e n k : Text) (c : ℕ)
          → letter_of st.connectionmap d n ≡ some c
          → letter_of st.connectionmap e k ≡ some c
          → (d ≡ e) × (n ≡ k))
        × ((d : Text) (ac : ActiveConnection D S F)
            → find_key eq_text d st.connectionmap ≡ some ac
            → ac.drivemap ≢ [])
  letters_are_own st r = let inv = Reach-Inv st r in (inv.letters.own, inv.in_use)
