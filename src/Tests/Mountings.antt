-- ===== src/Tests/Mountings.antt =====
-- A drive that is mounted, and one that cannot be.
use mtpmount.Base.{◌≡◌, inr, refl}
use mtpmount.Dokan.Mounting.{
  status_mounted, status_unmounted, at_gap, at_wait, gone, ended, Mounting, mounts, returns, ends,
  builds, unmounts, mounted, end_sleeps, unmounted, joins, new_mounting, Reach, start, later,
}
use mtpmount.Dokan.Mounting.Joined.{ended_when_over}

abbrev in_gap : Mounting
in_gap = record new_mounting { owner = at_gap }

abbrev slept : Mounting
slept = record in_gap { mount_status = status_mounted; owner = at_wait }

-- It is mounted before the constructor looks, and unmounted while the destructor waits.
abbrev after_all : Mounting
after_all = record { mount_status = status_unmounted; owner = gone; drive = ended }

after_all_reached : Reach after_all
after_all_reached =
    later
      (later
        (later
          (later
            (later
              (later
                (later (later (later start (mounts refl)) (builds refl refl)) (unmounts refl refl))
                (mounted refl refl))
              (end_sleeps refl))
            (returns refl))
          (ends refl))
        (unmounted refl (λ e. cc)))
      (joins refl refl)

ended_when_over_example : (after_all.drive ≡ ended) × (after_all.mount_status ≡ status_unmounted)
ended_when_over_example = ended_when_over after_all_reached (inr (inr refl))
