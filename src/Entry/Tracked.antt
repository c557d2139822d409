-- ===== src/Entry/Tracked.antt =====
-- mtpcache/FileCache.cpp: one file of the cache with the versions of its content, here and on the device. Clients write only
-- while they have write access, and end it once, also if it was refused; a push is requested while no
-- other one is under way.
pub mod Synced
use mtpmount.Base.{ℕ, ◌+◌, ◌-◌, ◌<◌, ◌≡◌, ◌⊎◌, Bool, true, false, Option, none, some, length}
use mtpmount.Base.Text.{Text}
use mtpmount.Path.{FsPath}
use mtpmount.Entry.{
  Entry, dirty, returned, while_pushing, while_pulling, new_entry, get_read_access,
  get_write_access, end_read_access, end_write_access, resume, pull_done, push_done, push_if_dirty,
}

pub record Tracked : Type 0 where
  pub entry : Entry
  pub local_version : Option ℕ  -- `none`: no local copy, or one that is not whole
  pub device_version : ℕ
  pub writers : ℕ  -- clients with write access
  pub pull_waiters : ℕ  -- clients that wait for the end of a pull, to write
  pub push_waiters : ℕ  -- clients that wait for the end of a push, to write
  pub refused : ℕ  -- clients whose write access was refused, and who have not ended it
  pub refused_ended : Bool  -- one of those has ended it
  pub pulls : ℕ  -- pulls that were requested and are not done
  pub pulled : Bool  -- the worker has received the whole file for the first of them
  pub in_flight : Bool  -- a push was requested and is not done
  pub transferred : Bool  -- and the worker has sent the file

abbrev pub tracked_entry : FsPath → ℕ → Text → ℕ → ℕ → Tracked
tracked_entry path drv hash now version = record {
  entry = new_entry path drv hash now;
  local_version = none;
  device_version = version;
  writers = 0;
  pull_waiters = 0;
  push_waiters = 0;
  refused = 0;
  refused_ended = false;
  pulls = 0;
  pulled = false;
  in_flight = false;
  transferred = false;
}

pub data Step (t : Tracked) : Tracked → Type 0 where
  -- The clients.
  read_begins :
      (file : Text) (now : ℕ)
      → Step t (record t {
        entry = (get_read_access file now t.entry).0.0;
        pulls = t.pulls + length (get_read_access file now t.entry).0.1;
      })
  read_ends : (now : ℕ) → Step t (record t { entry = end_read_access now t.entry })
  write_begins :
      (file : Text) (now : ℕ)
      → (get_write_access file now t.entry).1 ≡ returned true
      → Step t
          (record t { entry = (get_write_access file now t.entry).0.0; writers = t.writers + 1 })
  write_waits_for_pull :
      (file : Text) (now : ℕ)
      → (get_write_access file now t.entry).1 ≡ while_pulling
      → Step t (record t {
        entry = (get_write_access file now t.entry).0.0;
        pulls = t.pulls + length (get_write_access file now t.entry).0.1;
        pull_waiters = t.pull_waiters + 1;
      })
  write_waits_for_push :
      (file : Text) (now : ℕ)
      → (get_write_access file now t.entry).1 ≡ while_pushing
      → Step t (record t {
        entry = (get_write_access file now t.entry).0.0;
        push_waiters = t.push_waiters + 1;
      })
  woken_after_pull :
      0 < t.pull_waiters
      → resume while_pulling t.entry ≡ returned true
      → Step t (record t { pull_waiters = t.pull_waiters - 1; writers = t.writers + 1 })
  refused_after_pull :
      0 < t.pull_waiters
      → resume while_pulling t.entry ≡ returned false
      → Step t (record t { pull_waiters = t.pull_waiters - 1; refused = t.refused + 1 })
  woken_after_push :
      0 < t.push_waiters
      → resume while_pushing t.entry ≡ returned true
      → Step t (record t { push_waiters = t.push_waiters - 1; writers = t.writers + 1 })
  writes : (version : Option ℕ) → 0 < t.writers → Step t (record t { local_version = version })
  write_ends :
      (now : ℕ)
      → 0 < t.writers
      → Step t (record t { entry = end_write_access now t.entry; writers = t.writers - 1 })
  refused_ends :
      (now : ℕ)
      → 0 < t.refused
      → Step t (record t {
        entry = end_write_access now t.entry;
        refused = t.refused - 1;
        refused_ended = true;
      })
  -- The worker. A pull that fails leaves the copy as it was, none, or one that is cut off.
  pull_transfers :
      0 < t.pulls → Step t (record t { local_version = some t.device_version; pulled = true })
  pull_breaks :
      (left : Option ℕ) → 0 < t.pulls → Step t (record t { local_version = left; pulled = false })
  pull_ends :
      (successful : Bool)
      → 0 < t.pulls
      → ((successful ≡ false) ⊎ (t.pulled ≡ true))
      → Step t
          (record t { entry = pull_done successful t.entry; pulls = t.pulls - 1; pulled = false })
  push_requested :
      (file : Text)
      → t.in_flight ≡ false
      → t.entry.status ≡ dirty
      → Step t (record t {
        entry = (push_if_dirty file t.entry).0;
        in_flight = true;
        transferred = false;
      })
  -- A transfer beside a writer sends any mixture.
  push_transfers :
      (version : ℕ)
      → t.in_flight ≡ true
      → ((t.local_version ≡ some version) ⊎ (0 < t.writers))
      → Step t (record t { device_version = version; transferred = true })
  push_ends :
      (successful : Bool)
      → t.in_flight ≡ true
      → ((successful ≡ false) ⊎ (t.transferred ≡ true))
      → Step t (record t {
        entry = push_done successful t.entry;
        in_flight = false;
        transferred = false;
      })

pub data Reach (path : FsPath) (drv : ℕ) (hash : Text) (now version : ℕ) : Tracked → Type 0 where
  start : Reach path drv hash now version (tracked_entry path drv hash now version)
  later :
      {t u : Tracked}
      → Reach path drv hash now version t
      → Step t u
      → Reach path drv hash now version u
