-- ===== src/Dokan/Create/Exists.antt =====
-- dokanconnect/DokanDriveWrapper.cpp: what stands at a path after DokanCreateFile.
use mtpmount.Base.{ℕ, Bool, true, false, Option, none, some, ◌≡◌, refl, ◌⊎◌, arith, if◌then◌else◌}
use mtpmount.Path.{FsPath}
use mtpmount.Connection.{
  create_as_file, create_as_directory, check_dir_existance, check_file_existance,
}
use mtpmount.Dokan.{Services, Wrapper, success}
use mtpmount.Dokan.Create.{create_file, open_existing_file, create_missing, created}

-- Whether something stands at a path, and whether that is a directory.
abbrev pub is_dir : Option Bool → Bool
is_dir none = false
is_dir (some b) = b

abbrev pub is_file : Option Bool → Bool
is_file none = false
is_file (some b) = if b then false else true

-- The two checks say what stands at a path, and change nothing of that.
pub record Checks {W : Type 0} (sv : Services W) (drive : ℕ) (kind : FsPath → W → Option Bool)
    : Type 0 where
  pub checks_dir :
      (p : FsPath) (w : W)
      → ((sv.request drive p check_dir_existance w).1 ≡ is_dir (kind p w))
        × ((q : FsPath) → kind q (sv.request drive p check_dir_existance w).0 ≡ kind q w)
  pub checks_file :
      (p : FsPath) (w : W)
      → ((sv.request drive p check_file_existance w).1 ≡ is_file (kind p w))
        × ((q : FsPath) → kind q (sv.request drive p check_file_existance w).0 ≡ kind q w)

-- An object that is created at the path is there.
pub record Creates {W : Type 0} (sv : Services W) (drive : ℕ) (kind : FsPath → W → Option Bool)
    (path : FsPath) : Type 0 where
  pub creates_file :
      (w : W)
      → (sv.request drive path create_as_file w).1 ≡ true
      → kind path (sv.request drive path create_as_file w).0 ≡ some false
  pub creates_dir :
      (w : W)
      → (sv.request drive path create_as_directory w).1 ≡ true
      → kind path (sv.request drive path create_as_directory w).0 ≡ some true

module _ {W : Type 0} (sv : Services W) (d : Wrapper) (kind : FsPath → W → Option Bool)
    (checks : Checks sv d.drive_id kind) (path : FsPath)
    (creates : Creates sv d.drive_id kind path) where
  open_existing_file-success :
      (is_directory : Bool) (disposition : ℕ) (w : W)
      → (open_existing_file sv d path is_directory disposition w).1 ≡ success
      → is_directory ≡ false
  unfolding open_existing_file
  open_existing_file-success is_directory disposition w h = ground arith

  created-success :
      (r : W × Bool)
      → (created sv d path r).1 ≡ success
      → (r.1 ≡ true) × ((created sv d path r).0 ≡ r.0)
  unfolding created
  created-success (w, true) h = (refl, refl)
  created-success (w, false) h = cc

  create_missing-success :
      (is_directory : Bool) (disposition : ℕ) (w : W)
      → (create_missing sv d path is_directory disposition w).1 ≡ success
      → kind path (create_missing sv d path is_directory disposition w).0 ≡ some is_directory
  unfolding create_missing
  create_missing-success is_directory disposition w h =
      let file = sv.request d.drive_id path create_as_file w in
      let dir = sv.request d.drive_id path create_as_directory w in
      ground (
        arith,
        created-success file,
        created-success dir,
        creates.creates_file w,
        creates.creates_dir w,
      )

  -- Where the two checks say what stands at a path, and what is created is there: if DokanCreateFile
  -- succeeds, then where nothing stood at the path, an object of the kind that was asked
  -- for stands there afterwards, and the flag `IsDirectory` is as it was; where something stood, the
  -- flag says whether it is a directory, and for a file it was not set before.
  pub create_file-kind :
      (is_directory : Bool) (disposition : ℕ) (w : W)
      → let r = create_file sv d path is_directory disposition w in
        r.1 ≡ success
        → (kind path w ≡ none → (kind path r.0 ≡ some is_directory) × (r.2 ≡ is_directory))
          × ((b : Bool) → kind path w ≡ some b → (r.2 ≡ b) × ((b ≡ true) ⊎ (is_directory ≡ false)))
  unfolding create_file
  create_file-kind is_directory disposition w h =
      let w1 = (sv.request d.drive_id path check_dir_existance w).0 in
      let w2 = (sv.request d.drive_id path check_file_existance w1).0 in
      let (dir, same1) = checks.checks_dir path w in
      let (file, same2) = checks.checks_file path w1 in
      (
        λ free. ground (
          arith,
          dir,
          file,
          same1 path,
          same2 path,
          create_missing-success is_directory disposition w2,
        ),
        λ b there. ground (
          arith,
          dir,
          file,
          same1 path,
          same2 path,
          open_existing_file-success is_directory disposition w2,
        ),
      )
