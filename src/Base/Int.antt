-- ===== src/Base/Int.antt =====
-- The `int` of an index or a drive identifier: no operation of the model leaves its range.
use Prim.Native.Nat.{ℕ, ◌+◌, ◌-◌}
use mathlib.Core.Path.{◌≡◌}
use native.Mathlib.Omega.{arith}
use mtpmount.Base.Tests.{leb, if◌then◌else◌}

-- `negsuc n` is -(n + 1).
pub data ℤ : Type 0 where
  pos : ℕ → ℤ
  negsuc : ℕ → ℤ

-- a - b, as an integer.
abbrev pub sub_ℕ : ℕ → ℕ → ℤ
sub_ℕ a b = if leb b a then pos (a - b) else negsuc (b - a - 1)

pub sub_ℕ-eq-pos : (a b c : ℕ) → a ≡ b + c → sub_ℕ a b ≡ pos c
sub_ℕ-eq-pos a b c h = ground arith
