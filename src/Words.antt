-- ===== src/Words.antt =====
-- mtpaccess/Utils.cpp: `Utils::splitLongInteger` and `Utils::timeConvert`; 64-bit numbers in halves.
use mtpmount.Base.{ℕ, ◌+◌, ◌-◌, ◌*◌, ◌/◌, ◌%◌, ◌^◌, ◌<◌, ◌≡◌, ltb, if◌then◌else◌, arith}
use mtpmount.Base.Int.{ℤ, pos, negsuc}

-- `static_cast<int>` of a number below 2 ^ 32, in two's complement.
unfoldable pub to_int : ℕ → ℤ
to_int n = if ltb n (2 ^ 31) then pos n else negsuc (2 ^ 32 - 1 - n)

-- An `int` stored in a `DWORD`.
unfoldable pub to_dword : ℤ → ℕ
to_dword (pos n) = n % 2 ^ 32
to_dword (negsuc n) = 2 ^ 32 - 1 - n % 2 ^ 32

-- `splitLongInteger`: low, high. `& 0xFFFFFFFF` is `% 2 ^ 32`, `& 0xFFFFFFFF00000000` takes that off.
unfoldable pub split_long_integer : ℕ → ℤ × ℤ
unfolding to_int
split_long_integer input =
    let lowlong = input % 2 ^ 32 in
    let highlong = (input - input % 2 ^ 32) % 2 ^ 64 in
    (to_int (lowlong % 2 ^ 32), to_int (highlong / 2 ^ 32 % 2 ^ 32))

pub record FileTime : Type 0 where
  pub low_date_time : ℕ
  pub high_date_time : ℕ

-- `timeConvert`
unfoldable pub time_convert : ℕ → FileTime
time_convert device_time = record {
  low_date_time = device_time % 2 ^ 32 % 2 ^ 32;
  high_date_time = (device_time - device_time % 2 ^ 32) % 2 ^ 64 / 2 ^ 32 % 2 ^ 32;
}

-- The size that Windows reads from the two halves of `splitLongInteger` is the size that was split,
-- for every 64-bit size.
pub split_long_integer_joins :
    (input : ℕ)
    → input < 2 ^ 64
    → to_dword (split_long_integer input).1 * 2 ^ 32 + to_dword (split_long_integer input).0 ≡ input
unfolding split_long_integer to_dword
split_long_integer_joins input h = ground arith

-- The halves of a converted time make up the time, and each fits a `DWORD`.
pub time_convert_joins :
    (device_time : ℕ)
    → device_time < 2 ^ 64
    → let t = time_convert device_time in
      (t.high_date_time * 2 ^ 32 + t.low_date_time ≡ device_time)
      × (t.low_date_time < 2 ^ 32)
      × (t.high_date_time < 2 ^ 32)
unfolding time_convert
time_convert_joins device_time h = omega arith
