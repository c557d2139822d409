-- ===== src/Entry/Tracked/Synced.antt =====
-- mtpcache/FileCache.cpp: clean files, and what is on the device.
use mtpmount.Base.{◌<◌, ◌≡◌, ◌≢◌, ◌⊎◌, Bool, true, false, some}
use mtpmount.Base.Text.{Text}
use mtpmount.Entry.{Status, nonexistant, pulling, available, dirty, pushing}
use mtpmount.Entry.Tracked.{Tracked}

-- The file has been pulled.
abbrev is_loaded : Status → Bool
is_loaded available = true
is_loaded dirty = true
is_loaded pushing = true
is_loaded _ = false

record Inv (t : Tracked) : Type 0 where
  loaded_writers : (t.writers ≡ 0) ⊎ (is_loaded t.entry.status ≡ true)
  loaded_waiters : (t.push_waiters ≡ 0) ⊎ (is_loaded t.entry.status ≡ true)
  begun_waiters : (t.pull_waiters ≡ 0) ⊎ (t.entry.status ≢ nonexistant)
  one_pull : t.entry.status ≡ pulling → t.pulls ≡ 1
  no_pull : t.entry.status ≢ pulling → t.pulls ≡ 0
  received :
      t.pulled ≡ true → (t.entry.status ≡ pulling) × (t.local_version ≡ some t.device_version)
  pushing_in_flight : (t.entry.status ≡ pushing) → t.in_flight ≡ true
  loaded_in_flight : t.in_flight ≡ true → is_loaded t.entry.status ≡ true
  sent :
      t.transferred ≡ true
      → t.entry.status ≡ pushing
      → (t.local_version ≡ some t.device_version) ⊎ (0 < t.writers)
  changed : t.entry.status ≡ available → (t.local_version ≡ some t.device_version) ⊎ (0 < t.writers)
