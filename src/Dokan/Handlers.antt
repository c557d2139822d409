-- ===== src/Dokan/Handlers.antt =====
-- dokanconnect/DokanDriveWrapper.cpp: the other callbacks of Dokan. A buffer is the list of its bytes;
-- an offset is not negative.
pub mod ReadWrite
pub mod Moving
use mtpmount.Base.{
  ℕ, ◌-◌, Bool, true, false, not, Option, none, some, List, [], ◌∷◌, map, length, ◌==◌,
  if◌then◌else◌, take,
}
use mtpmount.Base.Text.{Text, codes}
use mtpmount.Path.{FsPath, parse_path}
use mtpmount.Connection.{delete_dir_or_file, check_dir_existance, check_file_existance}
use mtpmount.Dokan.{
  Services, NodeView, Wrapper, Status, success, unsuccessful, not_implemented, access_denied,
  object_name_collision, object_path_not_found, directory_not_empty,
}
use mtpmount.Dokan.LocalFile.{read_loop, seek, write_loop, resize}
use mtpmount.Dokan.Create.{check_dir, check_file}

module _ {W : Type 0} (sv : Services W) (d : Wrapper) (path : FsPath) where
  -- `_deleteNode`
  abbrev pub delete_node : W → W
  delete_node w = (sv.request d.drive_id path delete_dir_or_file w).0

  -- `_isDirEmpty`: the nodes are counted; there are none if the request fails.
  unfoldable pub is_dir_empty : W → W × Bool
  is_dir_empty w =
      let listed = sv.list_dir d.drive_id path w in
      (listed.0, (elim listed.1 [ none ↦ true | some nodes ↦ length nodes == 0 ]))

  -- `DokanCleanup`
  unfoldable pub cleanup : Bool → W → W
  cleanup delete_on_close w =
      if delete_on_close then delete_node (sv.delete_cache_entry path d.drive_id w).0 else w

  -- `DokanFlushFileBuffers`
  unfoldable pub flush_file_buffers : Bool → W → W × Status
  flush_file_buffers is_directory w =
      let pushed = sv.push_single_file path d.drive_id w in
      if is_directory
      then (w, unsuccessful)
      else (pushed.0, (if pushed.1 then success else object_path_not_found))

  -- `DokanDeleteDirectory` and `DokanDeleteFile`, which only say whether DokanCleanup may delete.
  unfoldable pub delete_directory : Bool → W → W × Status
  delete_directory delete_on_close w =
      let dir = check_dir sv d path w in
      let empty = is_dir_empty dir.0 in
      if not delete_on_close
      then (w, success)
      else if not dir.1
      then (dir.0, object_path_not_found)
      else (empty.0, (if empty.1 then success else directory_not_empty))

  unfoldable pub delete_file : Bool → W → W × Status
  delete_file delete_on_close w =
      let file = check_file sv d path w in
      if not delete_on_close
      then (w, success)
      else (file.0, (if file.1 then success else object_path_not_found))

  -- The stream of DokanReadFile over a local file: nothing is read of one that cannot be opened.
  unfoldable pub read_stream : ℕ → ℕ → Option Text → Text
  read_stream buffer_length offset none = []
  read_stream buffer_length offset (some s) = read_loop buffer_length (seek offset s)

  -- `DokanReadFile`: what the buffer holds up to `ReadLength`.
  unfoldable pub read_file : ℕ → ℕ → W → W × Text × Status
  read_file buffer_length offset w =
      let began = sv.begin_access path d.drive_id false w in
      (
        sv.end_access path d.drive_id false began.0,
        read_stream buffer_length offset (sv.local_file began.1 began.0),
        success,
      )

  -- The stream of DokanWriteFile: nothing is written to a file that cannot be opened.
  unfoldable pub write_stream : Text → Text → ℕ → W → Option Text → W × ℕ
  write_stream file buffer offset w none = (w, 0)
  write_stream file buffer offset w (some s) =
      (sv.put_local_file file (write_loop offset buffer s) w, length buffer)

  -- `DokanWriteFile`: the number of bytes that were written. The stream is opened during the access, but
  -- it holds the bytes back until it is closed, when the access has ended.
  unfoldable pub write_file : Text → ℕ → W → W × ℕ × Status
  write_file buffer offset w =
      let began = sv.begin_access path d.drive_id true w in
      let ended = sv.end_access path d.drive_id true began.0 in
      let wrote = write_stream began.1 buffer offset ended (sv.local_file began.1 began.0) in
      (wrote.0, wrote.1, success)

  -- What a file that is opened with "a+b" holds: it is made if it is not there.
  unfoldable pub opened_to_append : Option Text → Text
  opened_to_append none = []
  opened_to_append (some s) = s

  -- `DokanSetAllocationSize` and `DokanSetEndOfFile`, whose bodies are one; the local file can be
  -- opened.
  unfoldable pub set_end_of_file : ℕ → W → W × Status
  set_end_of_file size w =
      let began = sv.begin_access path d.drive_id true w in
      let old = opened_to_append (sv.local_file began.1 began.0) in
      let fits = sv.resizes began.1 size began.0 in
      let changed = sv.put_local_file began.1 (if fits then resize size old else old) began.0 in
      (sv.end_access path d.drive_id true changed, (if fits then success else access_denied))

-- `DokanVolumeInfo`: the name of the volume and of the file system, each cut to its buffer, whose
-- last place is for a null, and the numbers.
unfoldable pub volume_info : Wrapper → ℕ → ℕ → Text × Text × ℕ × ℕ
volume_info d volume_name_size file_system_name_size = (
  take (volume_name_size - 1) d.volume_name,
  take (file_system_name_size - 1) (codes "NTFS"),
  2804,
  200,
)

-- `DokanGetFileSecurity` and `DokanSetFileSecurity`
abbrev pub file_security : Status
file_security = not_implemented

module _ {W : Type 0} (sv : Services W) (d : Wrapper) (old_path new_path : FsPath) where
  moved : W × Bool → W × Status
  moved (w, true) = (w, success)
  moved (w, false) = (w, unsuccessful)

  -- The tests of DokanMoveFile on what stands at the new path: the status if it is refused.
  unfoldable pub move_onto_file : Bool → W → W × Option Status
  move_onto_file replace_if_existing w =
      let old = check_file sv d old_path w in
      if not old.1
      then (old.0, some unsuccessful)
      else if not replace_if_existing
      then (old.0, some unsuccessful)
      else (delete_node sv d new_path old.0, none)

  unfoldable pub move_onto_dir : W → W × Status
  move_onto_dir w =
      let old = check_dir sv d old_path w in
      (old.0, (if old.1 then object_name_collision else unsuccessful))

  unfoldable pub move_checked : W × Option Status → W × Status
  unfolding moved
  move_checked (w, some status) = (w, status)
  move_checked (w, none) = moved (sv.move_or_rename_inode old_path new_path d.drive_id w)

  -- `DokanMoveFile`
  unfoldable pub move_file : Bool → W → W × Status
  move_file replace_if_existing w =
      let file = check_file sv d new_path w in
      let dir = check_dir sv d new_path file.0 in
      let replaced = move_checked (move_onto_file replace_if_existing file.0) in
      let onto = move_onto_dir dir.0 in
      let plain = move_checked (dir.0, none) in
      if file.1 then replaced else if dir.1 then onto else plain
