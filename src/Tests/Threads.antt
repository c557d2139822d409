-- ===== src/Tests/Threads.antt =====
-- Two threads at the lock of the map.
use mtpmount.Base.{ℕ, ◌≡◌, ◌≢◌, refl, true, false, arith, ◌==◌, if◌then◌else◌}
use mtpmount.RwSync.{
  idle, update, write_begin, write_check, read_check, read_gap, read_wait, reading, write_notify,
  writing, wake_readers, System, Step, move, new_system, Reach, start, later, start_read,
  read_blocked, start_write, request_write, write_enter, end_write,
}
use mtpmount.RwSync.Invariant.{Inv, Reach-Inv, Step-Inv}
use mtpmount.RwSync.Exclusion.{no_reader_beside_writer}
use mtpmount.RwSync.Wakeup.{lost_wakeup}

-- Thread 1 has taken the write mutex.
abbrev begun : System
begun = record {
  sync = record (new_system.sync) { write_mtx = true };
  pc = update new_system.pc 1 write_begin;
}

begins : Step 2 new_system begun
begins = move 1 (omega arith) (start_write refl)

Step-Inv_example : Inv 2 begun.sync begun.pc
Step-Inv_example = Step-Inv begins (Reach-Inv {n = 2} start)

-- Thread 1 writes, thread 0 is idle.
abbrev written : System
written = record {
  sync = record (new_system.sync) { write_mtx = true; write_access = true };
  pc = update (update (update new_system.pc 1 write_begin) 1 write_check) 1 writing;
}

writes_reached : Reach 2 written
writes_reached =
    later (later (later start begins) (move 1 (omega arith) request_write))
      (move 1 (omega arith) (write_enter refl))

no_reader_beside_writer_example : written.pc 0 ≢ reading
no_reader_beside_writer_example =
    no_reader_beside_writer writes_reached 1 0 (omega arith) (omega arith) refl

abbrev writer : ℕ
writer = 1

-- Then thread 0 finds the writer, and thread 1 ends.
abbrev missed : System
missed = record {
  sync = record (new_system.sync) { write_mtx = true };
  pc = update (update (update written.pc 0 read_check) 0 read_gap) 1 write_notify;
}

missed_reached : Reach 2 missed
missed_reached =
    later
      (later (later writes_reached (move 0 (omega arith) start_read))
        (move 0 (omega arith) (read_blocked refl)))
      (move 1 (omega arith) end_write)

lost_wakeup_example :
    (t : System) × Reach 2 t
    × ((k : ℕ)
        → t.pc k
          ≡ (if k == 1 then idle else if k == 0 then read_wait else wake_readers (missed.pc k)))
    × (t.sync.write_access ≡ false)
    × (t.sync.write_mtx ≡ false)
lost_wakeup_example = lost_wakeup missed_reached 0 1 (omega arith) (omega arith) refl refl
