-- ===== src/Path/Order.antt =====
-- mtpaccess/Utils.cpp: `operator<` on `CaseInsensitiveWstring` and `FsPath`, and the equality that the maps get from it.
use mtpmount.Base.{
  ◌<◌, Bool, true, false, not, ◌&&◌, some, none, List, [], ◌∷◌, ◌≡◌, ◌↔◌, ◌⊎◌, refl, sym, arith,
  length, or_else,
}
use mtpmount.Base.Text.{Text, eq_text_iff, lt_text_irrefl, lt_text_trans, lt_text_total}
use mtpmount.Path.{Name, FsPath, lt_name, first_difference, lt_path}

-- Two keys of a `std::map` are one if neither is below the other.
unfoldable pub same_path : FsPath → FsPath → Bool
same_path p q = not (lt_path p q) && not (lt_path q p)

-- Equal upper-case names on every layer, and as many layers.
abbrev pub upper_cases : FsPath → List Text
upper_cases [] = []
upper_cases (n ∷ p) = n.upper_case ∷ upper_cases p

lt_name_irrefl : (a b : Name) → a.upper_case ≡ b.upper_case → lt_name a b ≡ false
unfolding lt_name
lt_name_irrefl a b h = rw h (lt_text_irrefl b.upper_case)

first_difference_self : (p q : FsPath) → upper_cases p ≡ upper_cases q → first_difference p q ≡ none
unfolding first_difference
first_difference_self [] q h = refl
first_difference_self (a ∷ p) [] h = refl
first_difference_self (a ∷ p) (b ∷ q) h =
    ground (arith, eq_text_iff a.upper_case b.upper_case, first_difference_self p q)

first_difference_none :
    (p q : FsPath)
    → length p ≡ length q
    → or_else (first_difference p q) false ≡ false
    → or_else (first_difference q p) false ≡ false
    → upper_cases p ≡ upper_cases q
unfolding first_difference
first_difference_none [] [] e h k = refl
first_difference_none [] (b ∷ q) e h k = absurd (omega arith)
first_difference_none (a ∷ p) [] e h k = absurd (omega arith)
first_difference_none (a ∷ p) (b ∷ q) e h k = ground (
  arith,
  eq_text_iff a.upper_case b.upper_case,
  eq_text_iff b.upper_case a.upper_case,
  lt_text_total a.upper_case b.upper_case,
  first_difference_none p q,
)

length-upper_cases : (p q : FsPath) → upper_cases p ≡ upper_cases q → length p ≡ length q
length-upper_cases [] [] h = refl
length-upper_cases [] (b ∷ q) h = cc
length-upper_cases (a ∷ p) [] h = cc
length-upper_cases (a ∷ p) (b ∷ q) h = ground (arith, length-upper_cases p q)

same_path→upper_cases : (p q : FsPath) → same_path p q ≡ true → upper_cases p ≡ upper_cases q
unfolding same_path lt_path
same_path→upper_cases p q h = first_difference_none p q (ground arith) (ground arith) (ground arith)

upper_cases→same_path : (p q : FsPath) → upper_cases p ≡ upper_cases q → same_path p q ≡ true
unfolding same_path lt_path
upper_cases→same_path p q h = ground (
  arith,
  first_difference_self p q h,
  first_difference_self q p (sym h),
  length-upper_cases p q h,
)

-- Two paths are one key exactly if they have the same names, compared without case.
pub same_path_iff : (p q : FsPath) → (same_path p q ≡ true) ↔ (upper_cases p ≡ upper_cases q)
same_path_iff p q = (same_path→upper_cases p q, upper_cases→same_path p q)

first_difference_trans :
    (p q r : FsPath)
    → length p ≡ length q
    → length q ≡ length r
    → first_difference p q ≡ some true
    → first_difference q r ≡ some true
    → first_difference p r ≡ some true
unfolding first_difference
first_difference_trans [] q r e f h k = cc
first_difference_trans (a ∷ p) [] r e f h k = cc
first_difference_trans (a ∷ p) (b ∷ q) [] e f h k = cc
first_difference_trans (a ∷ p) (b ∷ q) (c ∷ r) e f h k = ground (
  arith,
  eq_text_iff a.upper_case b.upper_case,
  eq_text_iff b.upper_case c.upper_case,
  eq_text_iff a.upper_case c.upper_case,
  lt_text_irrefl a.upper_case,
  lt_text_irrefl b.upper_case,
  lt_text_trans a.upper_case b.upper_case c.upper_case,
  lt_text_trans a.upper_case c.upper_case b.upper_case,
  lt_text_trans b.upper_case a.upper_case c.upper_case,
  first_difference_trans p q r,
)

lt_path→first_difference :
    (p q : FsPath)
    → lt_path p q ≡ true
    → (length p < length q) ⊎ ((length p ≡ length q) × (first_difference p q ≡ some true))
unfolding lt_path
lt_path→first_difference p q h = ground arith

first_difference→lt_path :
    (p q : FsPath)
    → (length p < length q) ⊎ ((length p ≡ length q) × (first_difference p q ≡ some true))
    → lt_path p q ≡ true
unfolding lt_path
first_difference→lt_path p q h = ground arith

-- The order of the paths is transitive.
pub lt_path_trans : (p q r : FsPath) → lt_path p q ≡ true → lt_path q r ≡ true → lt_path p r ≡ true
lt_path_trans p q r h k = first_difference→lt_path p r (
    ground (
      arith,
      lt_path→first_difference p q h,
      lt_path→first_difference q r k,
      first_difference_trans p q r,
    ))

-- No path is below itself.
pub lt_path_irrefl : (p : FsPath) → lt_path p p ≡ false
unfolding lt_path
lt_path_irrefl p = ground (arith, first_difference_self p p refl)
