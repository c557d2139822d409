-- ===== src/Mount/Gains.antt =====
-- mtpmount/MountCommands.cpp: the invariant of the store of connections, what mapping a drive does to
-- it, and how the single changes keep it.
use mtpmount.Base.{
  ℕ, Bool, true, false, none, some, List, [], ◌∷◌, ◌≡◌, ◌≢◌, ◌⊎◌, inl, inr, refl, ap, arith,
  if◌then◌else◌, Option-cases, Bool-cases, map,
}
use mtpmount.Base.Int.{ℤ, pos, negsuc}
use mtpmount.Base.Text.{Text, eq_text, eq_text_iff}
use mtpmount.Base.Assoc.{
  find_key, insert_key, find-insert, find-alter, find-erase, HasDistinctKeys,
  HasDistinctKeys-insert,
}
use mtpmount.Connection.{Connection}
use mtpmount.Mount.Store.{
  Host, DriveWrapper, ActiveConnection, MountAddressStore, get_available_drives, finds, map_drive,
  map_new, mount_drive, get_drive_letters, close_connection,
}
use mtpmount.Mount.Commands.{put_connection}
use mtpmount.Mount.Wellformed.{letter_in, letter_of, HasOwnLetters, AreInUse, erase-HasOwnLetters}

map-nil : {A B : Type 0} (f : A → B) (xs : List A) → map f xs ≡ [] → xs ≡ []
map-nil f [] h = refl
map-nil f (x ∷ xs) h = cc

pub find-some-nil :
    {V : Type 0} (k : Text) (m : List (Text × V)) {v : V} → find_key eq_text k m ≡ some v → m ≢ []
unfolding find_key
find-some-nil k [] h = cc
find-some-nil k (e ∷ m) h = λ g. cc

module _ {D S F : Type 0} where
  -- Windows reports every letter that the daemon has mounted.
  abbrev pub Reports : Host D S → MountAddressStore D S F → Type 0
  Reports h st =
      (d n : Text) (c : ℕ)
      → letter_of st.connectionmap d n ≡ some c
      → finds c (get_available_drives h.logical_drives) ≡ false

  pub record Inv (st : MountAddressStore D S F) : Type 0 where
    pub letters : HasOwnLetters st.connectionmap
    pub in_use : AreInUse st.connectionmap

  pub letters-nil : (ac : ActiveConnection D S F) → get_drive_letters ac ≡ [] → ac.drivemap ≡ []
  unfolding get_drive_letters
  letters-nil ac h = map-nil (λ e. e.1.drive_letter) ac.drivemap h

  -- What a connection that gets a drive has of its letters, and that it has one if it succeeds.
  pub record Gains (name : Text) (letter : ℕ) (ac : ActiveConnection D S F)
      (r : ActiveConnection D S F × Bool) : Type 0 where
    pub distinct : HasDistinctKeys eq_text r.0.drivemap
    pub mapped : r.1 ≡ true → r.0.drivemap ≢ []
    pub gained :
        (n : Text) (c : ℕ)
        → letter_in r.0 n ≡ some c
        → (letter_in ac n ≡ some c) ⊎ ((n ≡ name) × (c ≡ letter))

  mount_drive-Gains :
      (h : Host D S) (name : Text) (letter : ℕ) (ac : ActiveConnection D S F)
      (r : Connection D S F × ℤ)
      → HasDistinctKeys eq_text ac.drivemap
      → find_key eq_text name ac.drivemap ≡ none
      → Gains name letter ac (mount_drive h name letter ac r)
  unfolding mount_drive
  mount_drive-Gains h name letter ac (c, negsuc i) d e = record {
    distinct = d;
    mapped = λ f. cc;
    gained = λ n c f. inl f;
  }
  mount_drive-Gains h name letter ac (c, pos id) d e = elim (Bool-cases (h.mounts letter name)) [
    | inl m ↦
        let w : DriveWrapper = record { drive_id = id; drive_letter = letter } in
        let found : (n : Text)
            → find_key eq_text n (insert_key eq_text name w ac.drivemap)
              ≡ (elim (find_key eq_text n ac.drivemap) [
                | some v ↦ some v
                | none ↦ if eq_text name n then some w else none
              ]) =
          λ n. find-insert eq_text (λ t. t) eq_text_iff name n w ac.drivemap in
        let here : find_key eq_text name (insert_key eq_text name w ac.drivemap) ≡ some w =
          ground (arith, found name, e, eq_text_iff name name) in
        rw m record {
          distinct = HasDistinctKeys-insert eq_text (λ t. t) eq_text_iff name w ac.drivemap d;
          mapped = λ f. find-some-nil name (insert_key eq_text name w ac.drivemap) here;
          gained = λ n c f. ground (arith, found n, e, eq_text_iff name n);
        }
    | inr m ↦ rw m record { distinct = d; mapped = λ f. cc; gained = λ n c f. inl f }
  ]

  pub map_drive-Gains :
      (h : Host D S) (name : Text) (letter : ℕ) (ac : ActiveConnection D S F)
      → HasDistinctKeys eq_text ac.drivemap
      → Gains name letter ac (map_drive h name letter ac)
  unfolding map_drive
  map_drive-Gains h name letter ac d = elim (Option-cases (find_key eq_text name ac.drivemap)) [
    | inl e ↦
        rw (e, map_drive)
          (mount_drive-Gains h name letter ac (map_new h ac.guid name ac.syncer) d e)
    | inr (w, e) ↦
        rw (e, map_drive)
          record {
            distinct = d;
            mapped = λ f. find-some-nil name ac.drivemap e;
            gained = λ n c f. inl f;
          }
  ]

  -- Every connection has a drive, that of one device perhaps excepted.
  abbrev pub AreInUseBut : Text → MountAddressStore D S F → Type 0
  AreInUseBut device st =
      (d : Text) (a : ActiveConnection D S F)
      → find_key eq_text d st.connectionmap ≡ some a
      → (a.drivemap ≢ []) ⊎ (d ≡ device)

  pub closed-Inv :
      (device : Text) (st : MountAddressStore D S F)
      → HasOwnLetters st.connectionmap
      → AreInUseBut device st
      → Inv (close_connection device st)
  unfolding close_connection
  closed-Inv device st own used = record {
    letters = erase-HasOwnLetters device st.connectionmap own;
    in_use = λ d a f. ground (
      arith,
      used d a,
      eq_text_iff device d,
      find-erase eq_text (λ t. t) eq_text_iff device d st.connectionmap own.distinct,
    );
  }

  pub kept-Inv :
      (device : Text) (ac : ActiveConnection D S F) (st : MountAddressStore D S F)
      → HasOwnLetters st.connectionmap
      → AreInUseBut device st
      → find_key eq_text device st.connectionmap ≡ some ac
      → ac.drivemap ≢ []
      → Inv st
  kept-Inv device ac st own used f full = record {
    letters = own;
    in_use = λ d a g. ground (arith, used d a, g, f, full);
  }

  pub letters-full :
      (ac : ActiveConnection D S F) → eq_text (get_drive_letters ac) [] ≡ false → ac.drivemap ≢ []
  unfolding get_drive_letters
  letters-full ac h = λ e. ground (arith, ap (λ m. eq_text (map (λ e. e.1.drive_letter) m) []) e)

  pub found-put :
      (device e : Text) (ac ac' : ActiveConnection D S F) (st : MountAddressStore D S F)
      → find_key eq_text device st.connectionmap ≡ some ac
      → find_key eq_text e (put_connection device ac' st).connectionmap
        ≡ (if eq_text device e then some ac' else find_key eq_text e st.connectionmap)
  unfolding put_connection
  found-put device e ac ac' st f = ground (
    arith,
    f,
    eq_text_iff device e,
    find-alter eq_text (λ t. t) eq_text_iff device e (λ old. ac') st.connectionmap,
  )

  pub put-AreInUseBut :
      (device : Text) (ac ac' : ActiveConnection D S F) (st : MountAddressStore D S F)
      → AreInUseBut device st
      → find_key eq_text device st.connectionmap ≡ some ac
      → AreInUseBut device (put_connection device ac' st)
  put-AreInUseBut device ac ac' st used f =
      λ d a g. ground (arith, used d a, eq_text_iff device d, found-put device d ac ac' st f)
