-- ===== src/Path.antt =====
-- mtpaccess/Utils.h and Utils.cpp: `CaseInsensitiveWstring` and `FsPath`. `towupper` of the C
-- library is a parameter: it depends on the locale.
pub mod Parse
pub mod SubPath
pub mod Order
use mtpmount.Base.{
  ℕ, zero, suc, ◌+◌, ◌-◌, Bool, true, false, not, ◌||◌, ◌&&◌, Option, none, some, List, [], ◌∷◌,
  ◌++◌, map, ltb, ◌==◌, if◌then◌else◌, or_else, length, get_elem?,
}
use mtpmount.Base.Int.{ℤ, pos, negsuc, sub_ℕ}
use mtpmount.Base.Text.{Text, backslash, eq_text, lt_text}

-- `CaseInsensitiveWstring`
pub record Name : Type 0 where
  pub actual_case : Text
  pub upper_case : Text

-- Its constructor and its `operator=`.
unfoldable pub name : (ℕ → ℕ) → Text → Name
name towupper s = record { actual_case = s; upper_case = map towupper s }

unfoldable pub same_name : Name → Name → Bool
same_name a b = eq_text a.upper_case b.upper_case

unfoldable pub lt_name : Name → Name → Bool
lt_name a b = lt_text a.upper_case b.upper_case

-- `_path`
abbrev pub FsPath : Type 0
FsPath = List Name

abbrev pub is_separator : ℕ → Bool
is_separator c = (c == backslash) || (c == b'/')

-- A component is kept unless it is empty.
push_token : (ℕ → ℕ) → Text → FsPath → FsPath
push_token towupper [] path = path
push_token towupper (c ∷ token) path = path ++ name towupper (c ∷ token) ∷ []

parse_loop : (ℕ → ℕ) → Text → Text → FsPath → FsPath
unfolding push_token
parse_loop towupper [] token path = push_token towupper token path
parse_loop towupper (c ∷ s) token path = elim (is_separator c) [
  | true ↦ parse_loop towupper s [] (push_token towupper token path)
  | false ↦ parse_loop towupper s (token ++ c ∷ []) path
]

-- `FsPath::FsPath`
unfoldable pub parse_path : (ℕ → ℕ) → Text → FsPath
unfolding parse_loop name
parse_path towupper s = parse_loop towupper s [] []

full_path_loop : FsPath → Bool → Text → Text
full_path_loop [] first s = s
full_path_loop (n ∷ p) true s = full_path_loop p false (s ++ n.actual_case)
full_path_loop (n ∷ p) false s = full_path_loop p false ((s ++ backslash ∷ []) ++ n.actual_case)

-- `getFullPath`
unfoldable pub full_path : FsPath → Text
unfolding full_path_loop
full_path p = full_path_loop p true []

-- `getPathOnLayer`; an index out of range, a negative one too, gives the empty name.
unfoldable pub path_on_layer : (ℕ → ℕ) → FsPath → ℤ → Name
unfolding name
path_on_layer towupper p (pos i) = or_else (get_elem? p i) (name towupper [])
path_on_layer towupper p (negsuc i) = name towupper []

-- The components from index `i` on, `rounds` of them.
unfoldable pub layers : (ℕ → ℕ) → FsPath → ℕ → ℕ → FsPath
layers towupper p i zero = []
layers towupper p i (suc rounds) =
    path_on_layer towupper p (pos i) ∷ layers towupper p (i + 1) rounds

-- `getLeftSubPath`
unfoldable pub left_sub_path : (ℕ → ℕ) → FsPath → ℤ → FsPath
unfolding layers path_on_layer
left_sub_path towupper p (negsuc u) = []
left_sub_path towupper p (pos u) = if ltb u (length p) then layers towupper p 0 (u + 1) else p

-- `getRightSubPath`
unfoldable pub right_sub_path : (ℕ → ℕ) → FsPath → ℤ → FsPath
unfolding layers path_on_layer
right_sub_path towupper p (negsuc f) = p
right_sub_path towupper p (pos f) = layers towupper p f (length p - f)

-- The directory and the last component, as the callers take them: `getLeftSubPath(length - 2)` and
-- `getPathOnLayer(length - 1)`.
abbrev pub parent_path : (ℕ → ℕ) → FsPath → FsPath
parent_path towupper p = left_sub_path towupper p (sub_ℕ (length p) 2)

abbrev pub last_name : (ℕ → ℕ) → FsPath → Name
last_name towupper p = path_on_layer towupper p (sub_ℕ (length p) 1)

-- The loop of `operator<` over paths of one length: the answer of its early return, if it has one.
first_difference : FsPath → FsPath → Option Bool
unfolding same_name lt_name
first_difference [] q = none
first_difference (a ∷ p) [] = none
first_difference (a ∷ p) (b ∷ q) =
    if not (same_name a b) then some (lt_name a b) else first_difference p q

-- `operator<` on paths: a shorter path comes first.
unfoldable pub lt_path : FsPath → FsPath → Bool
unfolding first_difference
lt_path p q =
    if length p == length q
    then or_else (first_difference p q) (ltb (length p) (length q))
    else ltb (length p) (length q)
