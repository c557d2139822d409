-- ===== src/Base/Digits.antt =====
-- Numbers printed in a base up to 16 (`std::to_string`, `std::to_wstring`, `std::hex`).
use Prim.Native.Nat.{ℕ, zero, suc, ◌+◌, ◌-◌, ◌*◌, ◌/◌, ◌%◌, ◌≤◌, ◌<◌}
use mathlib.Core.Path.{◌≡◌, ap, refl, subst}
use mathlib.Core.Bool.{true, false}
use mathlib.Core.List.{[], ◌∷◌}
use native.Mathlib.Nat.{div-add-mod', mod-lt, div-lt_self, div-le_self}
use mathlib.Core.Logic.{inl, inr}
use native.Mathlib.Omega.{arith}
use mtpmount.Base.Tests.{Bool-cases, ==_iff, ltb, ◌==◌, if◌then◌else◌}
use mtpmount.Base.Text.{Text}
use mtpmount.Base.Lists.{All, length}

digit : ℕ → ℕ
digit d = if ltb d 10 then b'0' + d else d + b'a' - 10

unfoldable pub digit_value : ℕ → ℕ
digit_value c = if ltb c b'a' then c - b'0' else c + 10 - b'a'

digit_value-digit : (d : ℕ) → d < 16 → digit_value (digit d) ≡ d
unfolding digit digit_value
digit_value-digit d h = ground arith

-- The last digit is found first.
digits_loop : ℕ → ℕ → ℕ → Text → Text
digits_loop base zero n acc = acc
digits_loop base (suc fuel) n acc = elim (n / base == 0) [
  | true ↦ digit (n % base) ∷ acc
  | false ↦ digits_loop base fuel (n / base) (digit (n % base) ∷ acc)
]

-- Each round leaves a smaller number, so `n + 1` rounds are enough.
unfoldable pub print_base : ℕ → ℕ → Text
unfolding digits_loop digit
print_base base n = digits_loop base (n + 1) n []

unfoldable pub value_loop : ℕ → ℕ → Text → ℕ
value_loop base v [] = v
value_loop base v (c ∷ s) = value_loop base (v * base + digit_value c) s

unfoldable pub read_base : ℕ → Text → ℕ
unfolding value_loop digit_value
read_base base s = value_loop base 0 s

value_loop-digits_loop :
    (base fuel n : ℕ) (acc : Text)
    → 2 ≤ base
    → base ≤ 16
    → n < fuel
    → value_loop base 0 (digits_loop base fuel n acc) ≡ value_loop base n acc
unfolding value_loop digits_loop
value_loop-digits_loop base zero n acc lo hi h = absurd (omega arith)
value_loop-digits_loop base (suc fuel) n acc lo hi h = elim (Bool-cases (n / base == 0)) [
  | inl e ↦ rw (e, digits_loop) (rw digit_back (ap (λ v. value_loop base v acc) (small e)))
  | inr e ↦
      rw (e, digits_loop)
        (rw
          (
            value_loop-digits_loop base fuel (n / base) (digit (n % base) ∷ acc) lo hi (falls e),
            value_loop,
            digit_back,
          )
          (ap (λ v. value_loop base v acc) (div-add-mod' n base)))
]
  where
    digit_back : digit_value (digit (n % base)) ≡ n % base
    digit_back = digit_value-digit (n % base) (omega (arith, mod-lt n {m = base} (omega arith)))

    small : (n / base == 0) ≡ true → 0 * base + n % base ≡ n
    small e = omega (arith, div-add-mod' n base, ap (λ v. v * base) ((==_iff (n / base) 0).0 e))

    falls : (n / base == 0) ≡ false → n / base < fuel
    falls e = ground (arith, div-le_self n base, div-lt_self {n = n} {k = base})

-- A number that is printed can be read back.
pub read-print_base : (base n : ℕ) → 2 ≤ base → base ≤ 16 → read_base base (print_base base n) ≡ n
unfolding read_base print_base
read-print_base base n lo hi = value_loop-digits_loop base (n + 1) n [] lo hi (omega arith)

-- A decimal digit.
abbrev pub IsDigit : ℕ → Type 0
IsDigit c = (b'0' ≤ c) × (c ≤ b'9')

digit-IsDigit : (d : ℕ) → d < 10 → IsDigit (digit d)
unfolding digit
digit-IsDigit d h = ground arith

digits_loop-AreDigits :
    (fuel n : ℕ) (acc : Text) → All IsDigit acc → All IsDigit (digits_loop 10 fuel n acc)
unfolding digits_loop
digits_loop-AreDigits zero n acc h = h
digits_loop-AreDigits (suc fuel) n acc h = elim (Bool-cases (n / 10 == 0)) [
  | inl e ↦ rw (e, digits_loop) (digit-IsDigit (n % 10) (mod-lt n {m = 10} (omega arith)), h)
  | inr e ↦
      rw (e, digits_loop)
        (digits_loop-AreDigits fuel (n / 10) (digit (n % 10) ∷ acc)
          (digit-IsDigit (n % 10) (mod-lt n {m = 10} (omega arith)), h))
]

digits_loop-cons :
    (fuel n : ℕ) (c : ℕ) (acc : Text)
    → (d : ℕ) × (t : Text) × (digits_loop 10 fuel n (c ∷ acc) ≡ d ∷ t)
unfolding digits_loop
digits_loop-cons zero n c acc = (c, acc, refl)
digits_loop-cons (suc fuel) n c acc = elim (Bool-cases (n / 10 == 0)) [
  | inl e ↦ (digit (n % 10), c ∷ acc, rw (e, digits_loop) refl)
  | inr e ↦
      let (d, t, made) = digits_loop-cons fuel (n / 10) (digit (n % 10)) (c ∷ acc) in
      (d, t, rw (e, digits_loop) made)
]

digits_loop-some :
    (fuel n : ℕ) → n < fuel → (d : ℕ) × (t : Text) × (digits_loop 10 fuel n [] ≡ d ∷ t)
unfolding digits_loop
digits_loop-some zero n h = absurd (omega arith)
digits_loop-some (suc fuel) n h = elim (Bool-cases (n / 10 == 0)) [
  | inl e ↦ (digit (n % 10), [], rw (e, digits_loop) refl)
  | inr e ↦
      let (d, t, made) = digits_loop-cons fuel (n / 10) (digit (n % 10)) [] in
      (d, t, rw (e, digits_loop) made)
]

-- A printed number has a digit and nothing but digits.
pub print_base-AreDigits :
    (n : ℕ) → (c : ℕ) × (t : Text) × (print_base 10 n ≡ c ∷ t) × All IsDigit (c ∷ t)
unfolding print_base
print_base-AreDigits n =
    let (c, t, e) = digits_loop-some (n + 1) n (omega arith) in
    (c, t, e, subst (All IsDigit) e (digits_loop-AreDigits (n + 1) n [] tt))

length-digits_loop :
    (base fuel n : ℕ) (acc : Text) → length (digits_loop base fuel n acc) ≤ fuel + length acc
unfolding digits_loop
length-digits_loop base zero n acc = omega arith
length-digits_loop base (suc fuel) n acc = elim (Bool-cases (n / base == 0)) [
  | inl e ↦ rw (e, digits_loop) (omega arith)
  | inr e ↦
      rw (e, digits_loop)
        (omega (arith, length-digits_loop base fuel (n / base) (digit (n % base) ∷ acc)))
]

-- A coarse bound: a number has at most one digit more than its value.
pub length-print_base : (base n : ℕ) → length (print_base base n) ≤ n + 1
unfolding print_base
length-print_base base n = omega (arith, length-digits_loop base (n + 1) n [])
