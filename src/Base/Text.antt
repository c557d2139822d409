-- ===== src/Base/Text.antt =====
-- Text as a list of code units (`std::wstring` and `std::string`), with its comparisons.
use Prim.Native.Nat.{ℕ}
use Prim.Native.Char.{code}
use Prim.Native.String.{String}
use mathlib.Core.Path.{◌≡◌, refl}
use mathlib.Core.Logic.{◌↔◌, ◌≢◌}
use mathlib.Core.Bool.{Bool, true, false, ◌&&◌, ◌||◌}
use mathlib.Core.List.{List, [], ◌∷◌}
use native.Mathlib.Omega.{arith}
use mtpmount.Base.Tests.{◌==◌, ltb}
use mtpmount.Base.Lists.{All}

abbrev pub Text : Type 0
Text = List ℕ

-- The code points of a literal.
abbrev pub codes : String → Text
codes String.[] = []
codes (String.◌∷◌ c s) = code c ∷ codes s

abbrev pub backslash : ℕ
backslash = 92

-- `operator==`
abbrev pub eq_text : Text → Text → Bool
eq_text [] [] = true
eq_text [] (c ∷ t) = false
eq_text (c ∷ s) [] = false
eq_text (c ∷ s) (d ∷ t) = (c == d) && eq_text s t

-- `operator<`, by the first code unit that differs
abbrev pub lt_text : Text → Text → Bool
lt_text [] [] = false
lt_text [] (c ∷ t) = true
lt_text (c ∷ s) [] = false
lt_text (c ∷ s) (d ∷ t) = ltb c d || ((c == d) && lt_text s t)

pub eq_text→eq : (s t : Text) → eq_text s t ≡ true → s ≡ t
eq_text→eq [] [] h = refl
eq_text→eq [] (c ∷ t) h = cc
eq_text→eq (c ∷ s) [] h = cc
eq_text→eq (c ∷ s) (d ∷ t) h = ground (arith, eq_text→eq s t)

pub eq_text_self : (s : Text) → eq_text s s ≡ true
eq_text_self [] = refl
eq_text_self (c ∷ s) = ground (arith, eq_text_self s)

pub eq_text_iff : (s t : Text) → (eq_text s t ≡ true) ↔ (s ≡ t)
eq_text_iff s t = (eq_text→eq s t, λ e. rw e (eq_text_self t))

pub lt_text_irrefl : (s : Text) → lt_text s s ≡ false
lt_text_irrefl [] = refl
lt_text_irrefl (c ∷ s) = ground (arith, lt_text_irrefl s)

pub lt_text_trans : (s t u : Text) → lt_text s t ≡ true → lt_text t u ≡ true → lt_text s u ≡ true
lt_text_trans [] [] u h k = cc
lt_text_trans [] (d ∷ t) [] h k = cc
lt_text_trans [] (d ∷ t) (e ∷ u) h k = refl
lt_text_trans (c ∷ s) [] u h k = cc
lt_text_trans (c ∷ s) (d ∷ t) [] h k = cc
lt_text_trans (c ∷ s) (d ∷ t) (e ∷ u) h k = ground (arith, lt_text_trans s t u)

-- Neither is below the other exactly if they are equal.
pub lt_text_total : (s t : Text) → lt_text s t ≡ false → lt_text t s ≡ false → eq_text s t ≡ true
lt_text_total [] [] h k = refl
lt_text_total [] (d ∷ t) h k = cc
lt_text_total (c ∷ s) [] h k = cc
lt_text_total (c ∷ s) (d ∷ t) h k = ground (arith, lt_text_total s t)

-- No code unit of the text is `b`.
abbrev pub Lacks : ℕ → Text → Type 0
Lacks b = All (λ c. c ≢ b)
