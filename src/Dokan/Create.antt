-- ===== src/Dokan/Create.antt =====
-- dokanconnect/DokanDriveWrapper.cpp: `DokanCreateFile`. The dispositions of the kernel (FILE_...) and those of Win32
-- (CREATE_NEW, CREATE_ALWAYS, OPEN_ALWAYS), which the code mixes, are numbers.
pub mod Exists
use mtpmount.Base.{ℕ, Bool, true, false, ◌||◌, Option, none, some, [], ◌==◌, if◌then◌else◌}
use mtpmount.Path.{FsPath}
use mtpmount.Connection.{
  create_as_file, create_as_directory, check_dir_existance, check_file_existance,
}
use mtpmount.Dokan.{
  Services, Wrapper, Status, success, access_denied, object_name_exists, object_name_collision,
  object_name_not_found, not_a_directory,
}

abbrev pub file_supersede : ℕ
file_supersede = 0

abbrev pub file_open : ℕ
file_open = 1

abbrev pub file_overwrite : ℕ
file_overwrite = 4

abbrev pub file_overwrite_if : ℕ
file_overwrite_if = 5

abbrev pub create_new : ℕ
create_new = 1

abbrev pub create_always : ℕ
create_always = 2

abbrev pub open_always : ℕ
open_always = 4

module _ {W : Type 0} (sv : Services W) (d : Wrapper) (path : FsPath) where
  -- `_checkDirExistance`, `_checkFileExistance`, `_createNewFile` and `_createNewDir`
  abbrev pub check_dir : W → W × Bool
  check_dir w = sv.request d.drive_id path check_dir_existance w

  abbrev pub check_file : W → W × Bool
  check_file w = sv.request d.drive_id path check_file_existance w

  abbrev pub create_new_file : W → W × Bool
  create_new_file w = sv.request d.drive_id path create_as_file w

  abbrev pub create_new_dir : W → W × Bool
  create_new_dir w = sv.request d.drive_id path create_as_directory w

  -- The `ofstream` that truncates: it makes the file if there is none.
  unfoldable pub clear_file : W → W
  clear_file w =
      let began = sv.begin_access path d.drive_id true w in
      sv.end_access path d.drive_id true (sv.put_local_file began.1 [] began.0)

  unfoldable pub open_existing_dir : ℕ → Status
  open_existing_dir disposition =
      if disposition == create_new
      then object_name_exists
      else if disposition == open_always || disposition == create_always
      then object_name_collision
      else success

  unfoldable pub open_existing_file : Bool → ℕ → W → W × Status
  open_existing_file is_directory disposition w =
      let cleared = clear_file w in
      if is_directory
      then (w, not_a_directory)
      else if disposition == create_new
      then (w, object_name_exists)
      else (
        (if (disposition == file_supersede || disposition == file_overwrite)
              || disposition == file_overwrite_if
            then cleared
            else w),
        (if disposition == open_always || disposition == create_always
            then object_name_collision
            else success),
      )

  unfoldable pub created : W × Bool → W × Status
  created (w, true) = (w, success)
  created (w, false) = (w, access_denied)

  unfoldable pub create_missing : Bool → ℕ → W → W × Status
  create_missing is_directory disposition w =
      if disposition == file_open || disposition == file_overwrite
      then (w, object_name_not_found)
      else if is_directory
      then created (create_new_dir w)
      else created (create_new_file w)

  -- `DokanCreateFile`: the status, and the flag `IsDirectory` that it leaves.
  unfoldable pub create_file : Bool → ℕ → W → W × Status × Bool
  create_file is_directory disposition w =
      let dir = check_dir w in
      let file = check_file dir.0 in
      let opened = open_existing_file is_directory disposition file.0 in
      let made = create_missing is_directory disposition file.0 in
      if dir.1
      then (dir.0, open_existing_dir disposition, true)
      else if file.1
      then (opened.0, opened.1, is_directory)
      else (made.0, made.1, is_directory)
