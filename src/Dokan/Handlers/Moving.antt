-- ===== src/Dokan/Handlers/Moving.antt =====
-- dokanconnect/DokanDriveWrapper.cpp: when DokanMoveFile refuses.
use mtpmount.Base.{Bool, false, ◌&&◌, Option, none, ◌≡◌, ◌≢◌, arith, if◌then◌else◌}
use mtpmount.Path.{FsPath}
use mtpmount.Connection.{check_dir_existance, check_file_existance}
use mtpmount.Dokan.{Services, Wrapper, unsuccessful, object_name_collision}
use mtpmount.Dokan.Create.Exists.{Checks, is_dir, is_file}
use mtpmount.Dokan.Handlers.{move_file, move_onto_file, move_onto_dir, move_checked}

module _ {W : Type 0} (sv : Services W) (d : Wrapper) (kind : FsPath → W → Option Bool)
    (checks : Checks sv d.drive_id kind) (old_path new_path : FsPath) where
  -- Where the two checks say what stands at a path: DokanMoveFile onto something that is there, unless that is a file which a file may replace: the move
  -- is refused, nothing of the tree changes, and the status is a collision exactly if both are
  -- directories.
  pub move_file-refuses :
      (replace_if_existing : Bool) (w : W)
      → kind new_path w ≢ none
      → (is_file (kind new_path w) && (is_file (kind old_path w) && replace_if_existing)) ≡ false
      → ((move_file sv d old_path new_path replace_if_existing w).1 ≡ (
          if is_dir (kind new_path w) && is_dir (kind old_path w)
          then object_name_collision
          else unsuccessful))
        × ((q : FsPath)
            → kind q (move_file sv d old_path new_path replace_if_existing w).0 ≡ kind q w)
  unfolding move_file move_onto_file move_onto_dir move_checked
  move_file-refuses replace w there free =
      let w1 = (sv.request d.drive_id new_path check_file_existance w).0 in
      let w2 = (sv.request d.drive_id new_path check_dir_existance w1).0 in
      let (file_told, same1) = checks.checks_file new_path w in
      let (dir_told, same2) = checks.checks_dir new_path w1 in
      let (old_file, same3) = checks.checks_file old_path w1 in
      let (old_dir, same4) = checks.checks_dir old_path w2 in
      (
        ground (
          arith,
          file_told,
          dir_told,
          old_file,
          old_dir,
          same1 new_path,
          same1 old_path,
          same2 old_path,
        ),
        λ q. ground (
          arith,
          file_told,
          dir_told,
          old_file,
          old_dir,
          same1 new_path,
          same1 old_path,
          same2 old_path,
          same1 q,
          same2 q,
          same3 q,
          same4 q,
        ),
      )
