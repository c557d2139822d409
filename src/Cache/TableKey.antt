-- ===== src/Cache/TableKey.antt =====
-- mtpcache/FileCache.h and FileCache.cpp: `FileTableKey` and its `operator<`.
use mtpmount.Base.{ℕ, Bool, true, not, ◌&&◌, ◌≡◌, ◌↔◌, arith, ltb, ◌==◌, if◌then◌else◌, List}
use mtpmount.Base.Text.{Text}
use mtpmount.Path.{FsPath, lt_path}
use mtpmount.Path.Order.{same_path, same_path_iff, upper_cases}

pub record Key : Type 0 where
  pub drv : ℕ
  pub filepath : FsPath

unfoldable pub lt_key : Key → Key → Bool
lt_key a b = if a.drv == b.drv then lt_path a.filepath b.filepath else ltb a.drv b.drv

-- One key of the map: neither is below the other.
unfoldable pub same_key : Key → Key → Bool
unfolding lt_key
same_key a b = not (lt_key a b) && not (lt_key b a)

-- The drive, and the path without case.
abbrev pub canon : Key → ℕ × List Text
canon k = (k.drv, upper_cases k.filepath)

-- Two keys are one exactly if they name one drive and, without case, one path.
pub same_key_iff : (a b : Key) → (same_key a b ≡ true) ↔ (canon a ≡ canon b)
unfolding same_key same_path
same_key_iff a b = ground (arith, same_path_iff a.filepath b.filepath)
