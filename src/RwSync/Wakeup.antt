-- ===== src/RwSync/Wakeup.antt =====
-- mtpaccess/Utils.cpp: a notification between the test and the wait of `getReadAccess`.
use mtpmount.Base.{ℕ, ◌<◌, ◌≡◌, refl, sym, subst, false, arith, ◌==◌, if◌then◌else◌}
use mtpmount.RwSync.{
  RwSync, Pc, idle, read_gap, read_wait, write_notify, write_unlock, Move, read_sleep, unlock_write,
  update, wake_readers, System, move, notify_readers, Reach, later,
}
use mtpmount.RwSync.Total.{le-total}
use mtpmount.RwSync.Invariant.{prepares, Reach-Inv}

-- The state after the three steps: `j` notifies, `i` goes to sleep, `j` gives `_writeMtx` up.
abbrev asleep : System → ℕ → ℕ → System
asleep s i j = record {
  sync = record (s.sync) { write_mtx = false };
  pc = update (update (update (λ k. wake_readers (s.pc k)) j write_unlock) i read_wait) j idle;
}

sleeps : (s : RwSync) (p : Pc) → p ≡ read_gap → Move s p s read_wait
sleeps s p e = subst (λ q. Move s q s read_wait) (sym e) read_sleep

unlocks : (s : RwSync) (p : Pc) → p ≡ write_unlock → Move s p (record s { write_mtx = false }) idle
unlocks s p e = subst (λ q. Move s q (record s { write_mtx = false }) idle) (sym e) unlock_write

-- Whenever a reader has found a writer and not yet begun to wait while that writer is about to
-- notify, the lock can come to rest with nobody in it, the reader waiting for an event that is
-- past, the writer done, and all others where they were or woken: no thread writes, and none holds
-- the write mutex.
pub lost_wakeup :
    {n : ℕ} {s : System}
    → Reach n s
    → (i j : ℕ) → i < n
    → j < n
    → s.pc i ≡ read_gap
    → s.pc j ≡ write_notify
    → (t : System) × Reach n t
      × ((k : ℕ)
          → t.pc k ≡ (if k == j then idle else if k == i then read_wait else wake_readers (s.pc k)))
      × (t.sync.write_access ≡ false)
      × (t.sync.write_mtx ≡ false)
lost_wakeup {n} {s} r i j hi hj gap notify = (
  asleep s i j,
  later (later (later r (notify_readers j hj notify)) (move i hi (sleeps s.sync _ (ground arith))))
      (move j hj (unlocks s.sync _ (ground arith))),
  (λ k. ground arith),
  ground (arith, Reach-Inv r, le-total prepares n s.pc j hj),
  refl,
)
