-- ===== src/Dokan/Mounting/Joined.antt =====
-- dokanconnect/DokanDriveWrapper.cpp: what the constructor and the destructor of a drive wait for.
use mtpmount.Base.{◌≡◌, ◌≢◌, ◌⊎◌, Bool, true, false, arith}
use mtpmount.Dokan.Mounting.{
  status_unknown, status_mounted, status_unmounted, OwnerPc, at_test, at_gap, at_wait, failed,
  at_join, left, gone, DrivePc, ended, Mounting, notified, Step, mounts, returns, ends, unknown,
  sleeps, wakes, throws, builds, no_letter, unmounts, mounted, end_sleeps, end_wakes, unmounted,
  joins, Reach, start, later,
}

-- The owner is done with a drive, or about to be.
abbrev is_over : OwnerPc → Bool
is_over failed = true
is_over at_join = true
is_over left = true
is_over gone = true
is_over p = false

-- The constructor is over.
abbrev is_constructed : OwnerPc → Bool
is_constructed at_test = false
is_constructed at_gap = false
is_constructed at_wait = false
is_constructed p = true

abbrev Inv : Mounting → Type 0
Inv s =
    (s.mount_status ≡ status_unmounted → s.drive ≡ ended)
    × ((s.drive ≡ ended → s.mount_status ≡ status_unmounted)
        × ((is_constructed s.owner ≡ true → s.mount_status ≢ status_unknown)
            × (is_over s.owner ≡ true → s.drive ≡ ended)))

is_constructed-notified : (p : OwnerPc) → is_constructed (notified p) ≡ is_constructed p
is_constructed-notified p = ground arith

is_over-notified : (p : OwnerPc) → is_over (notified p) ≡ is_over p
is_over-notified p = ground arith

Step-Inv : {s t : Mounting} → Step s t → Inv s → Inv t
Step-Inv {s} (mounts h) (a, (b, (c, d))) =
    ground (arith, is_constructed-notified s.owner, is_over-notified s.owner)
Step-Inv {s} (returns h) (a, (b, (c, d))) = ground arith
Step-Inv {s} (ends h) (a, (b, (c, d))) = ground arith
Step-Inv {s} (unknown h k) (a, (b, (c, d))) = ground arith
Step-Inv {s} (sleeps h) (a, (b, (c, d))) = ground arith
Step-Inv {s} (wakes h) (a, (b, (c, d))) = ground arith
Step-Inv {s} (throws h k) (a, (b, (c, d))) = ground arith
Step-Inv {s} (builds h k) (a, (b, (c, d))) = ground arith
Step-Inv {s} (no_letter h k) (a, (b, (c, d))) = ground arith
Step-Inv {s} (unmounts h k) (a, (b, (c, d))) = ground arith
Step-Inv {s} (mounted h k) (a, (b, (c, d))) = ground arith
Step-Inv {s} (end_sleeps h) (a, (b, (c, d))) = ground arith
Step-Inv {s} (end_wakes h) (a, (b, (c, d))) = ground arith
Step-Inv {s} (unmounted h k) (a, (b, (c, d))) = ground arith
Step-Inv {s} (joins h k) (a, (b, (c, d))) = ground arith

Reach-Inv : {s : Mounting} → Reach s → Inv s
Reach-Inv start = ground arith
Reach-Inv (later r h) = Step-Inv h (Reach-Inv r)

-- However the threads interleave and whatever DokanMain does: once the constructor has thrown, or the
-- destructor is over, DokanMain has returned and the drive is not mounted.
pub ended_when_over :
    {s : Mounting}
    → Reach s
    → (s.owner ≡ failed) ⊎ ((s.owner ≡ left) ⊎ (s.owner ≡ gone))
    → (s.drive ≡ ended) × (s.mount_status ≡ status_unmounted)
ended_when_over {s} r p = let (a, (b, (c, d))) = Reach-Inv r in ground arith

-- A drive that is mounted while the constructor waits for that.
abbrev missed : DrivePc → Mounting
missed drive = record { mount_status = status_mounted; owner = at_wait; drive = drive }
