-- ===== src/RwSync/Invariant.antt =====
-- mtpaccess/Utils.cpp: what the fields of the lock say about its threads.
use mtpmount.Base.{ℕ, ◌+◌, ◌≤◌, ◌<◌, ◌≡◌, refl, Bool, true, false, arith}
use mtpmount.RwSync.{
  RwSync, Pc, idle, reading, write_begin, write_check, write_gap, write_wait, writing, write_notify,
  write_unlock, Move, start_read, read_blocked, read_enter, read_sleep, read_wake, end_read,
  start_write, request_write, write_blocked, write_enter, write_sleep, write_wake, end_write,
  unlock_write, update, wake_readers, wake_writers, System, Step, move, notify_writers,
  notify_readers, Reach, start, later,
}
use mtpmount.RwSync.Total.{total, total-update, total-pointwise, total-const, le-total}

abbrev pub reads : Pc → ℕ
reads reading = 1
reads _ = 0

abbrev pub writes : Pc → ℕ
writes writing = 1
writes _ = 0

-- Has `_writeMtx`, and does not write.
abbrev pub prepares : Pc → ℕ
prepares write_begin = 1
prepares write_check = 1
prepares write_gap = 1
prepares write_wait = 1
prepares write_notify = 1
prepares write_unlock = 1
prepares _ = 0

abbrev pub bit : Bool → ℕ
bit true = 1
bit false = 0

pub record Inv (n : ℕ) (s : RwSync) (pc : ℕ → Pc) : Type 0 where
  pub counted : s.read_accesses ≡ total reads n pc
  pub access : total writes n pc ≡ bit s.write_access
  pub owned : total prepares n pc + total writes n pc ≡ bit s.write_mtx
  pub exclusive : s.write_access ≡ true → s.read_accesses ≡ 0

-- A step of a thread at `p`, in terms of the counts.
record Counts (n : ℕ) (pc : ℕ → Pc) (i : ℕ) (p p' : Pc) : Type 0 where
  readers : total reads n (update pc i p') + reads p ≡ total reads n pc + reads p'
  writers : total writes n (update pc i p') + writes p ≡ total writes n pc + writes p'
  owners : total prepares n (update pc i p') + prepares p ≡ total prepares n pc + prepares p'
  reader_counted : reads p ≤ total reads n pc
  owner_counted : prepares p ≤ total prepares n pc

counts : (n : ℕ) (pc : ℕ → Pc) (i : ℕ) (p' : Pc) → i < n → Counts n pc i (pc i) p'
counts n pc i p' h = record {
  readers = total-update reads n pc i p' h;
  writers = total-update writes n pc i p' h;
  owners = total-update prepares n pc i p' h;
  reader_counted = le-total reads n pc i h;
  owner_counted = le-total prepares n pc i h;
}

Move-Inv :
    {n : ℕ} {s s' : RwSync} {pc : ℕ → Pc} {i : ℕ} {p p' : Pc}
    → Move s p s' p'
    → Counts n pc i p p'
    → Inv n s pc
    → Inv n s' (update pc i p')
Move-Inv start_read c v = ground arith
Move-Inv (read_blocked h) c v = ground arith
Move-Inv (read_enter h) c v = ground arith
Move-Inv read_sleep c v = ground arith
Move-Inv read_wake c v = ground arith
Move-Inv end_read c v = ground arith
Move-Inv (start_write h) c v = ground arith
Move-Inv request_write c v = ground arith
Move-Inv (write_blocked h) c v = ground arith
Move-Inv (write_enter h) c v = ground arith
Move-Inv write_sleep c v = ground arith
Move-Inv write_wake c v = ground arith
Move-Inv end_write c v = ground arith
Move-Inv unlock_write c v = ground arith

-- A notification changes no count.
wake-Inv :
    (n : ℕ) (s : RwSync) (pc : ℕ → Pc) (wake : Pc → Pc)
    → ((p : Pc)
        → (reads (wake p) ≡ reads p)
          × (writes (wake p) ≡ writes p)
          × (prepares (wake p) ≡ prepares p))
    → Inv n s pc
    → Inv n s (λ j. wake (pc j))
wake-Inv n s pc wake h v = ground (
  arith,
  total-pointwise reads n (λ j. wake (pc j)) pc (λ j. (h (pc j)).0),
  total-pointwise writes n (λ j. wake (pc j)) pc (λ j. (h (pc j)).1),
  total-pointwise prepares n (λ j. wake (pc j)) pc (λ j. (h (pc j)).2),
)

wake_readers-counts :
    (p : Pc)
    → (reads (wake_readers p) ≡ reads p)
      × (writes (wake_readers p) ≡ writes p)
      × (prepares (wake_readers p) ≡ prepares p)
wake_readers-counts p = ground arith

wake_writers-counts :
    (p : Pc)
    → (reads (wake_writers p) ≡ reads p)
      × (writes (wake_writers p) ≡ writes p)
      × (prepares (wake_writers p) ≡ prepares p)
wake_writers-counts p = ground arith

-- A thread that goes on after it has notified the others.
after_notify-Inv :
    (n : ℕ) (s : RwSync) (pc : ℕ → Pc) (i : ℕ) (p' : Pc)
    → i < n
    → reads (pc i) ≡ reads p'
    → writes (pc i) ≡ writes p'
    → prepares (pc i) ≡ prepares p'
    → Inv n s pc
    → Inv n s (update pc i p')
after_notify-Inv n s pc i p' lt hr hw hp v = ground (arith, counts n pc i p' lt)

-- Every step of a thread keeps the invariant of the lock: `_readAccesses` counts the threads with
-- read access, `_writeAccess` says whether a thread has write access, `_writeMtx` is taken exactly if
-- one thread has it, and there are no readers while a thread has write access.
pub Step-Inv : {n : ℕ} {s t : System} → Step n s t → Inv n s.sync s.pc → Inv n t.sync t.pc
Step-Inv {n} {s} (move i {p} lt m) v = Move-Inv m (counts n s.pc i p lt) v
Step-Inv {n} {s} (notify_writers i lt e) v =
    after_notify-Inv n s.sync (λ j. wake_writers (s.pc j)) i idle lt (rw e) (rw e) (rw e)
      (wake-Inv n s.sync s.pc wake_writers wake_writers-counts v)
Step-Inv {n} {s} (notify_readers i lt e) v =
    after_notify-Inv n s.sync (λ j. wake_readers (s.pc j)) i write_unlock lt (rw e) (rw e) (rw e)
      (wake-Inv n s.sync s.pc wake_readers wake_readers-counts v)

pub Reach-Inv : {n : ℕ} {s : System} → Reach n s → Inv n s.sync s.pc
Reach-Inv {n} start = ground (
  arith,
  total-const reads n idle refl,
  total-const writes n idle refl,
  total-const prepares n idle refl,
)
Reach-Inv (later r st) = Step-Inv st (Reach-Inv r)
