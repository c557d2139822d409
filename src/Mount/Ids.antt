-- ===== src/Mount/Ids.antt =====
-- mtpmount/MountCommands.cpp: the numbers that `MountAddressStore` gives to storages
-- (`toStorageEnum`, `toStorageId`, `decideIdParameter`). `_idvector` points to the keys of `_idset`;
-- here it holds them. `stoul` is that of the C++ library, for an `unsigned long` of 32 bits.
pub mod Stable
use mtpmount.Base.{
  ℕ, ◌+◌, ◌-◌, ◌*◌, ◌^◌, ◌%◌, Bool, true, false, not, ◌&&◌, ◌||◌, Option, none, some, List, [], ◌∷◌,
  ◌++◌, leb, ltb, ◌==◌, if◌then◌else◌, length, get_elem?,
}
use mtpmount.Base.Text.{Text, eq_text, lt_text, codes, backslash}
use mtpmount.Base.Strto.{strto}
use mtpmount.Base.Assoc.{find_key, insert_key}

-- `devStorageId`
pub record DevStorageId : Type 0 where
  pub connection : Text
  pub storage : Text

abbrev pub joined : DevStorageId → Text
joined id = id.connection ++ backslash ∷ id.storage

-- `operator<`, and the test of the map: neither is below the other.
abbrev pub lt_id : DevStorageId → DevStorageId → Bool
lt_id a b = lt_text (joined a) (joined b)

abbrev pub same_id : DevStorageId → DevStorageId → Bool
same_id a b = not (lt_id a b) && not (lt_id b a)

pub record Ids : Type 0 where
  pub idvector : List DevStorageId
  pub idset : List (DevStorageId × ℕ)

abbrev pub no_ids : Ids
no_ids = record { idvector = []; idset = [] }

unfoldable pub to_storage_enum : DevStorageId → Ids → Ids × ℕ
to_storage_enum id s = elim (find_key same_id id s.idset) [
  | some n ↦ (s, n)
  | none ↦
      let next_id = length s.idvector in
      (
        record s {
          idvector = s.idvector ++ id ∷ [];
          idset = insert_key same_id id next_id s.idset;
        },
        next_id,
      )
]

unfoldable pub to_storage_id : ℕ → Ids → DevStorageId
to_storage_id enm s = elim (get_elem? s.idvector enm) [
  | none ↦ record { connection = []; storage = [] }
  | some id ↦ id
]

-- The outcomes of `std::stoul`.
pub data Stoul : Type 0 where
  value : ℕ → Stoul
  invalid_argument out_of_range : Stoul

abbrev ulong_max : ℕ
ulong_max = 2 ^ 32 - 1

-- A number that is too large is an error, a sign negates within the range.
unfoldable pub stoul : Text → Stoul
stoul s = elim (strto s) [
  | none ↦ invalid_argument
  | some (negative, n) ↦
      if ltb ulong_max n
      then out_of_range
      else value (if negative then (2 ^ 32 - n) % 2 ^ 32 else n)
]

-- `decideIdParameter` returns false, returns true with what it has found, or throws
-- `std::out_of_range`: it catches `std::invalid_argument` only.
pub data Decision : Type 0 where
  undecided : Decision
  decided : DevStorageId → Decision
  throws_out_of_range : Decision

unfoldable pub decide_id_parameter : Text → Ids → Decision
decide_id_parameter [] s = undecided
decide_id_parameter (c ∷ []) s = undecided
decide_id_parameter (c ∷ d ∷ parameter) s = elim (c == b'#') [
  | false ↦ undecided
  | true ↦ elim (stoul (d ∷ parameter)) [
    | invalid_argument ↦ undecided
    | out_of_range ↦ throws_out_of_range
    | value enm ↦
        let id = to_storage_id enm s in
        if eq_text id.connection [] && eq_text id.storage [] then undecided else decided id
  ]
]
