-- ===== src/RwSync.antt =====
-- mtpaccess/Utils.h and Utils.cpp: `ParalellReadUniqueWriteSync`, the lock of the map of the cache,
-- as the interleavings of `n` threads. What a thread does between taking and releasing `_statusMtx`
-- is one step. A wait on a condition variable is two: the thread has given up `_statusMtx` and is not
-- yet waiting (the mutex of the wait is its own), and it is waiting. A wait may end by itself.
mod Total
pub mod Invariant
pub mod Exclusion
pub mod Wakeup
use mtpmount.Base.{ℕ, ◌+◌, ◌-◌, ◌<◌, ◌≡◌, Bool, true, false, ◌||◌, ◌==◌, if◌then◌else◌}

-- The fields of the class; `write_mtx` says whether `_writeMtx` is taken.
pub record RwSync : Type 0 where
  pub read_accesses : ℕ
  pub write_access : Bool
  pub write_request : Bool
  pub write_mtx : Bool

-- Where a thread stands.
pub data Pc : Type 0 where
  idle : Pc
  read_check : Pc  -- the test of the loop in `getReadAccess`
  read_gap : Pc  -- the test found a writer, before the wait
  read_wait : Pc  -- waits for `writeEndEvent`
  reading : Pc
  read_notify : Pc  -- in `endReadAccess`, before `notify_all`
  write_begin : Pc  -- has `_writeMtx`, before it sets `_writeRequest`
  write_check : Pc  -- the test of the loop in `getWriteAccess`
  write_gap : Pc  -- the test found readers, before the wait
  write_wait : Pc  -- waits for `readEndEvent`
  writing : Pc
  write_notify : Pc  -- in `endWriteAccess`, before `notify_all`
  write_unlock : Pc  -- after `notify_all`, before it gives `_writeMtx` up

-- A step of one thread.
pub data Move (s : RwSync) : Pc → RwSync → Pc → Type 0 where
  -- getReadAccess
  start_read : Move s idle s read_check
  read_blocked : (s.write_access || s.write_request) ≡ true → Move s read_check s read_gap
  read_enter :
      (s.write_access || s.write_request) ≡ false
      → Move s read_check (record s { read_accesses = s.read_accesses + 1 }) reading
  read_sleep : Move s read_gap s read_wait
  read_wake : Move s read_wait s read_check
  -- endReadAccess, up to `notify_all`
  end_read : Move s reading (record s { read_accesses = s.read_accesses - 1 }) read_notify
  -- getWriteAccess
  start_write : s.write_mtx ≡ false → Move s idle (record s { write_mtx = true }) write_begin
  request_write : Move s write_begin (record s { write_request = true }) write_check
  write_blocked : 0 < s.read_accesses → Move s write_check s write_gap
  write_enter :
      s.read_accesses ≡ 0
      → Move s write_check (record s { write_access = true; write_request = false }) writing
  write_sleep : Move s write_gap s write_wait
  write_wake : Move s write_wait s write_check
  -- endWriteAccess, without its `notify_all`
  end_write : Move s writing (record s { write_access = false }) write_notify
  unlock_write : Move s write_unlock (record s { write_mtx = false }) idle

abbrev pub update {ℓ} : {A : Type ℓ} → (ℕ → A) → ℕ → A → ℕ → A
update f i a j = if i == j then a else f j

-- `writeEndEvent.notify_all`
abbrev pub wake_readers : Pc → Pc
wake_readers read_wait = read_check
wake_readers p = p

-- `readEndEvent.notify_all`
abbrev pub wake_writers : Pc → Pc
wake_writers write_wait = write_check
wake_writers p = p

pub record System : Type 0 where
  pub sync : RwSync
  pub pc : ℕ → Pc

pub data Step (n : ℕ) (s : System) : System → Type 0 where
  move :
      (i : ℕ) {r : RwSync} {p : Pc}
      → i < n
      → Move s.sync (s.pc i) r p
      → Step n s (record { sync = r; pc = update s.pc i p })
  notify_writers :
      (i : ℕ)
      → i < n
      → s.pc i ≡ read_notify
      → Step n s (record { sync = s.sync; pc = update (λ j. wake_writers (s.pc j)) i idle })
  notify_readers :
      (i : ℕ)
      → i < n
      → s.pc i ≡ write_notify
      → Step n s (record { sync = s.sync; pc = update (λ j. wake_readers (s.pc j)) i write_unlock })

-- The constructor of the class, before any thread uses the lock.
abbrev pub new_system : System
new_system = record {
  sync = record {
    read_accesses = 0;
    write_access = false;
    write_request = false;
    write_mtx = false;
  };
  pc = λ _. idle;
}

pub data Reach (n : ℕ) : System → Type 0 where
  start : Reach n new_system
  later : {s t : System} → Reach n s → Step n s t → Reach n t
