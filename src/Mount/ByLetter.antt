-- ===== src/Mount/ByLetter.antt =====
-- mtpmount/MountCommands.cpp: unmount with a letter (`whoHasThisDriveLetter`, `driveLetterToName`).
use mtpmount.Base.{
  ℕ, ◌≤◌, true, false, ◌&&◌, ◌||◌, none, some, List, [], ◌∷◌, ◌≡◌, ◌≢◌, refl, ap, arith,
  if◌then◌else◌, ◌>>=◌, >>=-eq-some, Bool-cases, inl, inr, map,
}
use mtpmount.Base.Text.{Text, eq_text, eq_text_iff, eq_text→eq}
use mtpmount.Base.Assoc.{find_key, find-erase, HasDistinctKeys, HasDistinctKeys-erase}
use mtpmount.Mount.Ids.{Ids, decide_id_parameter, undecided}
use mtpmount.Mount.Store.{
  Host, DriveWrapper, ActiveConnection, MountAddressStore, unmap_drive, get_drive_letters, finds,
  has_letter, who_loop, who_has_this_drive_letter, name_loop, drive_letter_to_name,
  close_connection, is_drive_mapped,
}
use mtpmount.Mount.Commands.{returns, return_success, put_connection, upper_letter}
use mtpmount.Mount.Unmounting.{
  unmount_from, unmount_named, drive_of, unmount_source, unmount_sourced, by_letter,
  unmount_command,
}
use mtpmount.Mount.Wellformed.{letter_in, letter_of, HasOwnLetters, shrink-HasOwnLetters}
use mtpmount.Mount.Reachable.{Reach, Reach-Inv}
use mtpmount.Mount.Gains.{found-put, letters-nil}

-- The first name with a letter has the letter, if some name has it.
name_loop-finds :
    (c : ℕ) (m : List (Text × DriveWrapper))
    → HasDistinctKeys eq_text m
    → has_letter c (map (λ e. e.1.drive_letter) m) ≡ true
    → (find_key eq_text (name_loop c m) m >>= λ w. some w.drive_letter) ≡ some c
unfolding name_loop has_letter find_key
name_loop-finds c [] d h = cc
name_loop-finds c ((n, w) ∷ m) d h =
    ground (arith, name_loop-finds c m d.1, eq_text_iff n n, eq_text_iff n (name_loop c m))

finds-has_letter :
    (c : ℕ) (n : Text) (m : List (Text × DriveWrapper))
    → (find_key eq_text n m >>= λ w. some w.drive_letter) ≡ some c
    → has_letter c (map (λ e. e.1.drive_letter) m) ≡ true
unfolding has_letter find_key
finds-has_letter c n [] h = cc
finds-has_letter c n ((k, w) ∷ m) h = ground (arith, finds-has_letter c n m)

no_number : (c : ℕ) (s : Text) (ids : Ids) → b'A' ≤ c → decide_id_parameter (c ∷ s) ids ≡ undecided
unfolding decide_id_parameter
no_number c [] ids lo = refl
no_number c (e ∷ s) ids lo = ground arith

capital : (c : ℕ) → b'A' ≤ c → c ≤ b'Z' → upper_letter c ≡ c
unfolding upper_letter
capital c lo hi = ground arith

module _ {D S F : Type 0} where
  -- A letter that one storage only has leads to the device and the name of that storage.
  who_loop-finds :
      (c : ℕ) (d n : Text) (m : List (Text × ActiveConnection D S F))
      → HasDistinctKeys eq_text m
      → ((e : Text) (ac : ActiveConnection D S F)
          → find_key eq_text e m ≡ some ac
          → HasDistinctKeys eq_text ac.drivemap)
      → ((e k : Text) → letter_of m e k ≡ some c → (e ≡ d) × (k ≡ n))
      → letter_of m d n ≡ some c
      → (ac : ActiveConnection D S F) × (who_loop c m ≡ some (d, ac))
        × (find_key eq_text d m ≡ some ac)
        × (drive_letter_to_name c ac ≡ n)
  unfolding who_loop find_key finds get_drive_letters drive_letter_to_name
  who_loop-finds c d n [] distinct drives own h = cc
  who_loop-finds c d n ((e, ac) ∷ m) distinct drives own h =
      let self = eq_text_iff e e in
      elim (Bool-cases (has_letter c (map (λ e. e.1.drive_letter) ac.drivemap))) [
        | inl has ↦
            let named = name_loop-finds c ac.drivemap (drives e ac (ground (arith, self))) has in
            let same = own e (name_loop c ac.drivemap) (ground (arith, self, named)) in
            (ac, rw has (ap (λ x. some (x, ac)) same.0), ground (arith, self, same.0), same.1)
        | inr lacks ↦
            let other : eq_text e d ≡ false =
              ground (arith, finds-has_letter c n ac.drivemap, lacks, h) in
            let (ac', found, at, name) =
              who_loop-finds c d n m distinct.1
                (λ f ac'' g. drives f ac'' (ground (arith, g, distinct.0, eq_text_iff e f)))
                (λ f k g. own f k (ground (arith, g, distinct.0, eq_text_iff e f)))
                (ground (arith, other, h)) in
            (ac', rw lacks found, ground (arith, other, at), name)
      ]

  none_left : (ac : ActiveConnection D S F) → ac.drivemap ≡ [] → (k : Text) → letter_in ac k ≡ none
  unfolding find_key
  none_left ac e k = rw e refl

  unmount_from-letters :
      (h : Host D S) (d n : Text) (ac : ActiveConnection D S F) (st : MountAddressStore D S F)
      (c : ℕ)
      → HasOwnLetters st.connectionmap
      → find_key eq_text d st.connectionmap ≡ some ac
      → letter_in ac n ≡ some c
      → ((unmount_from h d n ac st).1.outcome ≡ returns return_success)
        × ((e k : Text)
            → letter_of (unmount_from h d n ac st).0.connectionmap e k
              ≡ (if eq_text d e && eq_text n k then none else letter_of st.connectionmap e k))
  unfolding unmount_from put_connection unmap_drive is_drive_mapped close_connection
  unmount_from-letters h d n ac st c own f l =
      let rest : ActiveConnection D S F = unmap_drive n ac in
      let st' = put_connection d rest st in
      let mapped : is_drive_mapped n ac ≡ true = ground (arith, l) in
      let left : (k : Text) → letter_in rest k ≡ (if eq_text n k then none else letter_in ac k) =
        λ k.
          ground
            (arith, find-erase eq_text (λ t. t) eq_text_iff n k ac.drivemap (own.drives d ac f)) in
      let put : (e k : Text)
          → letter_of st'.connectionmap e k
            ≡ (if eq_text d e && eq_text n k then none else letter_of st.connectionmap e k) =
        λ e k. ground (arith, found-put d e ac rest st f, left k, f, eq_text_iff d e) in
      let kept : HasOwnLetters st'.connectionmap =
        shrink-HasOwnLetters d ac rest st.connectionmap own f
          (HasDistinctKeys-erase eq_text (λ t. t) eq_text_iff n ac.drivemap (own.drives d ac f))
          (λ k x g. ground (arith, g, left k)) in
      elim (Bool-cases (eq_text (get_drive_letters rest) [])) [
        | inr e ↦ rw (mapped, e) (refl, put)
        | inl full ↦
            rw (mapped, full)
              (
                refl,
                λ e k. ground (
                  arith,
                  find-erase eq_text (λ t. t) eq_text_iff d e st'.connectionmap kept.distinct,
                  put e k,
                  found-put d e ac rest st f,
                  eq_text_iff d e,
                  left k,
                  f,
                  none_left rest (letters-nil rest (eq_text→eq (get_drive_letters rest) [] full)) k,
                ),
              )
      ]

  unmount_named-letters :
      (h : Host D S) (d n : Text) (st : MountAddressStore D S F) (c : ℕ)
      → HasOwnLetters st.connectionmap
      → letter_of st.connectionmap d n ≡ some c
      → d ≢ []
      → n ≢ []
      → ((unmount_named h d n st).1.outcome ≡ returns return_success)
        × ((e k : Text)
            → letter_of (unmount_named h d n st).0.connectionmap e k
              ≡ (if eq_text d e && eq_text n k then none else letter_of st.connectionmap e k))
  unfolding unmount_named
  unmount_named-letters h d n st c own l named stored =
      let (ac, f, at) =
        >>=-eq-some (find_key eq_text d st.connectionmap) (λ ac. letter_in ac n) l in
      let full : (eq_text d [] || eq_text n []) ≡ false =
        ground (arith, eq_text_iff d [], eq_text_iff n []) in
      rw (full, f) (unmount_from-letters h d n ac st c own f at)

  letter_source :
      (from_utf8 : Text → Text) (c : ℕ) (s : Text) (d n : Text) (st : MountAddressStore D S F)
      → HasOwnLetters st.connectionmap
      → letter_of st.connectionmap d n ≡ some c
      → b'A' ≤ c
      → c ≤ b'Z'
      → unmount_source from_utf8 ((c ∷ s) ∷ []) st ≡ drive_of d n
  unfolding unmount_source by_letter who_has_this_drive_letter
  letter_source from_utf8 c s d n st own l lo hi =
      let (ac, found, at, name) =
        who_loop-finds c d n st.connectionmap own.distinct own.drives
          (λ e k g. own.own e d k n c g l) l in
      let plain : decide_id_parameter (c ∷ s) st.ids ≡ undecided = no_number c s st.ids lo in
      ground (arith, plain, capital c lo hi, found, name)

  -- In a store that commands lead to, unmount with the letter of a storage that is mounted succeeds:
  -- that storage has no letter any more, and every other storage has the letter that it had. The
  -- device and the storage have names that are not empty, and the letter is a capital.
  pub unmount_by_letter :
      (h : Host D S) (c : ℕ) (s : Text) (d n : Text) (st : MountAddressStore D S F)
      → Reach st
      → letter_of st.connectionmap d n ≡ some c
      → d ≢ []
      → n ≢ []
      → b'A' ≤ c
      → c ≤ b'Z'
      → ((unmount_command h ((c ∷ s) ∷ []) st).1.outcome ≡ returns return_success)
        × ((e k : Text)
            → letter_of (unmount_command h ((c ∷ s) ∷ []) st).0.connectionmap e k
              ≡ (if eq_text d e && eq_text n k then none else letter_of st.connectionmap e k))
  unfolding unmount_command unmount_sourced
  unmount_by_letter h c s d n st r l named stored lo hi =
      let own = (Reach-Inv st r).letters in
      rw (letter_source h.from_utf8 c s d n st own l lo hi)
        (unmount_named-letters h d n st c own l named stored)
