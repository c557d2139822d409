-- ===== src/Dokan/Mounting.antt =====
-- dokanconnect/DokanDriveWrapper.cpp: how a drive is mounted and unmounted, as the interleavings of the thread
-- that constructs and destroys the `DokanDriveWrapper` with the thread that DokanMain runs in. What is
-- done under `_mountstatusMutex` is one step; the wait on the condition variable is two, since its
-- mutex is one of its own: the owner is about to wait, and it waits. A wait may end by itself.
-- DokanMain may call DokanMounted, and may return, whenever it runs.
pub mod Joined
use mtpmount.Base.{◌≡◌, ◌≢◌}

pub data MountStatus : Type 0 where
  status_unknown status_mounted status_unmounted : MountStatus

-- Where the owner stands.
pub data OwnerPc : Type 0 where
  at_test at_gap at_wait : OwnerPc  -- the loop of the constructor
  built : OwnerPc
  failed : OwnerPc  -- the constructor has thrown
  at_end_test at_end_gap at_end_wait : OwnerPc  -- the loop of the destructor
  at_join : OwnerPc
  left : OwnerPc  -- the destructor has returned early
  gone : OwnerPc  -- the destructor has joined the thread

-- Where the thread of the drive stands.
pub data DrivePc : Type 0 where
  in_main after_main ended : DrivePc

pub record Mounting : Type 0 where
  pub mount_status : MountStatus
  pub owner : OwnerPc
  pub drive : DrivePc

-- `notify_all`
abbrev pub notified : OwnerPc → OwnerPc
notified at_wait = at_test
notified at_end_wait = at_end_test
notified p = p

pub data Step (s : Mounting) : Mounting → Type 0 where
  -- The thread of the drive: DokanMounted and DokanDriveWrapperThreadRoutine.
  mounts :
      s.drive ≡ in_main
      → Step s (record s { mount_status = status_mounted; owner = notified s.owner })
  returns : s.drive ≡ in_main → Step s (record s { drive = after_main })
  ends :
      s.drive ≡ after_main
      → Step s (record { mount_status = status_unmounted; owner = notified s.owner; drive = ended })
  -- The constructor.
  unknown :
      s.owner ≡ at_test → s.mount_status ≡ status_unknown → Step s (record s { owner = at_gap })
  sleeps : s.owner ≡ at_gap → Step s (record s { owner = at_wait })
  wakes : s.owner ≡ at_wait → Step s (record s { owner = at_test })
  throws :
      s.owner ≡ at_test → s.mount_status ≡ status_unmounted → Step s (record s { owner = failed })
  builds : s.owner ≡ at_test → s.mount_status ≡ status_mounted → Step s (record s { owner = built })
  -- The destructor: getDriveLetter throws if the drive is not mounted.
  no_letter : s.owner ≡ built → s.mount_status ≢ status_mounted → Step s (record s { owner = left })
  unmounts :
      s.owner ≡ built → s.mount_status ≡ status_mounted → Step s (record s { owner = at_end_test })
  mounted :
      s.owner ≡ at_end_test
      → s.mount_status ≡ status_mounted
      → Step s (record s { owner = at_end_gap })
  end_sleeps : s.owner ≡ at_end_gap → Step s (record s { owner = at_end_wait })
  end_wakes : s.owner ≡ at_end_wait → Step s (record s { owner = at_end_test })
  unmounted :
      s.owner ≡ at_end_test
      → s.mount_status ≢ status_mounted
      → Step s (record s { owner = at_join })
  joins : s.owner ≡ at_join → s.drive ≡ ended → Step s (record s { owner = gone })

-- The constructor has started the thread.
abbrev pub new_mounting : Mounting
new_mounting = record { mount_status = status_unknown; owner = at_test; drive = in_main }

pub data Reach : Mounting → Type 0 where
  start : Reach new_mounting
  later : {s t : Mounting} → Reach s → Step s t → Reach t
