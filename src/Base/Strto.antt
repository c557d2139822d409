-- ===== src/Base/Strto.antt =====
-- The numbers that `std::stoul` and `std::stoi` read at the start of a text, in base 10, before they
-- test the range: white space, a sign, digits.
use mtpmount.Base.Tests.{leb, ◌==◌, if◌then◌else◌}
use mtpmount.Base.Text.{Text}
use mtpmount.Base.Lists.{All}
use Prim.Native.Nat.{ℕ, ◌+◌, ◌-◌, ◌*◌}
use mathlib.Core.Path.{◌≡◌, refl, ap, sym, ◌∙◌}
use mathlib.Core.Bool.{Bool, true, false, ◌&&◌, ◌||◌}
use mathlib.Core.Option.{Option, none, some}
use mathlib.Core.List.{[], ◌∷◌}
use native.Mathlib.Omega.{arith}
use mtpmount.Base.Digits.{
  print_base, read_base, value_loop, digit_value, IsDigit, read-print_base, print_base-AreDigits,
}

is_space : ℕ → Bool
is_space c = (c == 32) || (leb 9 c && leb c 13)

is_digit : ℕ → Bool
is_digit c = leb b'0' c && leb c b'9'

digits : ℕ → Text → ℕ
unfolding is_digit
digits n [] = n
digits n (c ∷ s) = let rest = digits (n * 10 + (c - b'0')) s in if is_digit c then rest else n

unsigned : Bool → Text → Option (Bool × ℕ)
unfolding digits is_digit
unsigned negative [] = none
unsigned negative (c ∷ s) = if is_digit c then some (negative, digits 0 (c ∷ s)) else none

signed : Text → Option (Bool × ℕ)
unfolding unsigned
signed [] = none
signed (c ∷ s) =
    if c == b'-'
    then unsigned true s
    else if c == b'+'
    then unsigned false s
    else unsigned false (c ∷ s)

-- The sign, and the number without it; `none` is `std::invalid_argument`.
unfoldable pub strto : Text → Option (Bool × ℕ)
unfolding signed is_space
strto [] = none
strto (c ∷ s) = let rest = strto s in if is_space c then rest else signed (c ∷ s)

digits-value_loop : (n : ℕ) (s : Text) → All IsDigit s → digits n s ≡ value_loop 10 n s
unfolding digits value_loop is_digit digit_value
digits-value_loop n [] h = refl
digits-value_loop n (c ∷ s) h = ground (arith, digits-value_loop (n * 10 + (c - b'0')) s h.1)

-- What is printed is read.
pub strto-print_base : (n : ℕ) → strto (print_base 10 n) ≡ some (false, n)
unfolding strto signed unsigned is_space is_digit read_base
strto-print_base n =
    let (c, t, e, all) = print_base-AreDigits n in
    let back : digits 0 (c ∷ t) ≡ n =
      digits-value_loop 0 (c ∷ t) all
      ∙ ap (read_base 10) (sym e)
      ∙ read-print_base 10 n (omega arith) (omega arith) in
    rw e (ground (arith, back, all))
