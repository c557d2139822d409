-- ===== src/Mount/Wellformed.antt =====
-- mtpmount/MountCommands.cpp: no letter has two drives, and how the changes of the map of connections
-- keep that.
use mtpmount.Base.{
  ℕ, Option, none, some, List, [], ◌≡◌, ◌≢◌, ◌⊎◌, refl, arith, if◌then◌else◌, ◌>>=◌,
}
use mtpmount.Base.Text.{Text, eq_text, eq_text_iff}
use mtpmount.Base.Assoc.{
  find_key, erase_key, insert_key, alter_key, find-insert, find-alter, find-erase, HasDistinctKeys,
  HasDistinctKeys-insert, HasDistinctKeys-alter, HasDistinctKeys-erase,
}
use mtpmount.Mount.Store.{ActiveConnection}

module _ {D S F : Type 0} where
  -- The letter of a storage of a connection, and of a device.
  abbrev pub letter_in : ActiveConnection D S F → Text → Option ℕ
  letter_in ac name = find_key eq_text name ac.drivemap >>= λ w. some w.drive_letter

  abbrev pub letter_of : List (Text × ActiveConnection D S F) → Text → Text → Option ℕ
  letter_of m device name = find_key eq_text device m >>= λ ac. letter_in ac name

  pub record HasOwnLetters (m : List (Text × ActiveConnection D S F)) : Type 0 where
    pub distinct : HasDistinctKeys eq_text m
    pub drives :
        (d : Text) (ac : ActiveConnection D S F)
        → find_key eq_text d m ≡ some ac
        → HasDistinctKeys eq_text ac.drivemap
    pub own :
        (d e n k : Text) (c : ℕ)
        → letter_of m d n ≡ some c
        → letter_of m e k ≡ some c
        → (d ≡ e) × (n ≡ k)

  -- Every connection has a drive.
  abbrev pub AreInUse : List (Text × ActiveConnection D S F) → Type 0
  AreInUse m =
      (d : Text) (ac : ActiveConnection D S F) → find_key eq_text d m ≡ some ac → ac.drivemap ≢ []

  -- A connection changes into one whose letters it had, up to a new one for one name.
  pub put-HasOwnLetters :
      (device name : Text) (new : ℕ) (ac ac' : ActiveConnection D S F)
      (m : List (Text × ActiveConnection D S F))
      → HasOwnLetters m
      → find_key eq_text device m ≡ some ac
      → HasDistinctKeys eq_text ac'.drivemap
      → ((d n : Text) → letter_of m d n ≢ some new)
      → ((n : Text) (c : ℕ)
          → letter_in ac' n ≡ some c
          → (letter_in ac n ≡ some c) ⊎ ((n ≡ name) × (c ≡ new)))
      → HasOwnLetters (alter_key eq_text device (λ old. ac') m)
  put-HasOwnLetters device name new ac ac' m own f d free change =
      let found : (e : Text)
          → find_key eq_text e (alter_key eq_text device (λ old. ac') m)
            ≡ (if eq_text device e then some ac' else find_key eq_text e m) =
        λ e. ground (
          arith,
          f,
          eq_text_iff device e,
          find-alter eq_text (λ t. t) eq_text_iff device e (λ old. ac') m,
        ) in
      let was : (e n : Text) (c : ℕ)
          → letter_of (alter_key eq_text device (λ old. ac') m) e n ≡ some c
          → (letter_of m e n ≡ some c) ⊎ ((e ≡ device) × (n ≡ name) × (c ≡ new)) =
        λ e n c h. ground (arith, f, found e, eq_text_iff device e, change n c) in
      record {
        distinct =
            HasDistinctKeys-alter eq_text (λ t. t) eq_text_iff device (λ old. ac') m own.distinct;
        drives = λ e ac'' h. ground (arith, found e, own.drives e ac'', d);
        own = λ d e n k c h h'.
            ground (arith, was d n c h, was e k c h', own.own d e n k c, free d n, free e k);
      }

  -- A connection loses letters.
  pub shrink-HasOwnLetters :
      (device : Text) (ac ac' : ActiveConnection D S F) (m : List (Text × ActiveConnection D S F))
      → HasOwnLetters m
      → find_key eq_text device m ≡ some ac
      → HasDistinctKeys eq_text ac'.drivemap
      → ((n : Text) (c : ℕ) → letter_in ac' n ≡ some c → letter_in ac n ≡ some c)
      → HasOwnLetters (alter_key eq_text device (λ old. ac') m)
  shrink-HasOwnLetters device ac ac' m own f d change =
      let found = λ (e : Text). find-alter eq_text (λ t. t) eq_text_iff device e (λ old. ac') m in
      let was : (e n : Text) (c : ℕ)
          → letter_of (alter_key eq_text device (λ old. ac') m) e n ≡ some c
          → letter_of m e n ≡ some c =
        λ e n c h. ground (arith, f, found e, eq_text_iff device e, change n c) in
      record {
        distinct =
            HasDistinctKeys-alter eq_text (λ t. t) eq_text_iff device (λ old. ac') m own.distinct;
        drives = λ e ac'' h. ground (arith, f, eq_text_iff device e, found e, own.drives e ac'', d);
        own = λ d e n k c h h'. own.own d e n k c (was d n c h) (was e k c h');
      }

  pub erase-HasOwnLetters :
      (device : Text) (m : List (Text × ActiveConnection D S F))
      → HasOwnLetters m
      → HasOwnLetters (erase_key eq_text device m)
  erase-HasOwnLetters device m own =
      let found = λ (e : Text). find-erase eq_text (λ t. t) eq_text_iff device e m own.distinct in
      record {
        distinct = HasDistinctKeys-erase eq_text (λ t. t) eq_text_iff device m own.distinct;
        drives = λ e ac h. ground (arith, found e, own.drives e ac);
        own = λ d e n k c h h'. ground (arith, found d, found e, own.own d e n k c);
      }

  -- A connection without drives is added.
  pub insert-HasOwnLetters :
      (device : Text) (ac : ActiveConnection D S F) (m : List (Text × ActiveConnection D S F))
      → HasOwnLetters m
      → ac.drivemap ≡ []
      → HasOwnLetters (insert_key eq_text device ac m)
  unfolding find_key
  insert-HasOwnLetters device ac m own empty =
      let found = λ (e : Text). find-insert eq_text (λ t. t) eq_text_iff device e ac m in
      let none_yet : (n : Text) → letter_in ac n ≡ none = λ n. rw empty refl in
      let was : (e n : Text) (c : ℕ)
          → letter_of (insert_key eq_text device ac m) e n ≡ some c
          → letter_of m e n ≡ some c =
        λ e n c h. ground (arith, found e, none_yet n) in
      record {
        distinct = HasDistinctKeys-insert eq_text (λ t. t) eq_text_iff device ac m own.distinct;
        drives = λ e ac' h. ground (arith, found e, own.drives e ac', empty);
        own = λ d e n k c h h'. own.own d e n k c (was d n c h) (was e k c h');
      }
