-- ===== src/Entry/Faults.antt =====
-- mtpcache/FileCache.cpp: pushes of one file that overlap, and a write access that was refused.
use mtpmount.Base.{ℕ, ◌≡◌, true, false, [], ◌∷◌, arith}
use mtpmount.Base.Text.{Text}
use mtpmount.Entry.{
  Entry, nonexistant, available, pushing, pull, push, get_access, get_write_access, async_pull,
  async_push, end_write_access, push_if_dirty, push_done, is_dirty, while_pulling, resume, returned,
  pull_done,
}

-- If a write access to a file that is being pushed ends, and the file is flushed again, a second push
-- is enqueued; if the first push then ends well the file is marked available, and if the second one
-- fails after that the file is not dirty.
pub overlapping_pushes :
    (file : Text) (now : ℕ) (e : Entry)
    → e.status ≡ pushing
    → let (flushed, requests) = push_if_dirty file (end_write_access now e) in
      (requests ≡ push e.drv_id_on_device e.path_on_device file ∷ [])
      × ((push_done true flushed).status ≡ available)
      × (is_dirty (push_done false (push_done true flushed)) ≡ false)
unfolding push_if_dirty end_write_access push_done is_dirty
overlapping_pushes file now e h = ground arith

-- The first write access to a file enqueues a pull and waits. If the pull fails the client is refused;
-- if it ends its write access all the same, the next flush enqueues a push of the file.
pub refused_write_is_pushed :
    (file : Text) (now later : ℕ) (e : Entry)
    → e.status ≡ nonexistant
    → let ((pulled, requests), wait) = get_write_access file now e in
      let failed = pull_done false pulled in
      (requests ≡ pull e.drv_id_on_device e.path_on_device file ∷ [])
      × (wait ≡ while_pulling)
      × (resume wait failed ≡ returned false)
      × ((push_if_dirty file (end_write_access later failed)).1
          ≡ push e.drv_id_on_device e.path_on_device file ∷ [])
unfolding get_write_access get_access async_pull push_if_dirty async_push end_write_access pull_done
    resume
refused_write_is_pushed file now later e h = ground arith
