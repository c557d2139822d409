-- ===== src/RwSync/Exclusion.antt =====
-- mtpaccess/Utils.cpp: who can have access at one time.
use mtpmount.Base.{ℕ, ◌<◌, ◌≡◌, ◌≢◌, arith}
use native.Mathlib.Decide.{ℕ_discrete}
use mtpmount.RwSync.{reading, writing, System, Reach}
use mtpmount.RwSync.Total.{le-total, add-le-total}
use mtpmount.RwSync.Invariant.{reads, writes, Reach-Inv}

-- While one thread is between the return of `getWriteAccess` and the call of `endWriteAccess`, no
-- thread is between the return of `getReadAccess` and the call of `endReadAccess`.
pub no_reader_beside_writer :
    {n : ℕ} {s : System}
    → Reach n s
    → (i j : ℕ) → i < n
    → j < n
    → s.pc i ≡ writing
    → s.pc j ≢ reading
no_reader_beside_writer {n} {s} r i j hi hj w e =
    ground (arith, Reach-Inv r, le-total writes n s.pc i hi, le-total reads n s.pc j hj)

-- At most one thread has write access.
pub one_writer :
    {n : ℕ} {s : System}
    → Reach n s
    → (i j : ℕ) → i < n
    → j < n
    → s.pc i ≡ writing
    → s.pc j ≡ writing
    → i ≡ j
one_writer {n} {s} r i j hi hj w e = elim (ℕ_discrete i j) [
  | yes same ↦ same
  | no other ↦ absurd (ground (arith, Reach-Inv r, add-le-total writes n s.pc i j hi hj other))
]
