-- ===== src/Dokan/Backend/Existing.antt =====
-- The services of the callbacks over the connection (mtpcache/ConnectionSync.cpp): what stands at a path.
use mtpmount.Base.{
  ℕ, Bool, true, false, Option, none, some, [], ◌≡◌, ◌≢◌, refl, ap, arith, ◌==◌, List,
}
use mtpmount.Base.Assoc.{find_key}
use mtpmount.Base.Text.{Text}
use mtpmount.Words.{FileTime}
use mtpmount.Path.{FsPath, name, last_name}
use mtpmount.Fs.{Node}
use mtpmount.Drive.{Existence, does_not_exist, is_a_directory, is_a_file}
use mtpmount.Drive.Created.{create_file_there, create_folder_there}
use mtpmount.Entry.{Wait}
use mtpmount.Cache.TableKey.{Key}
use mtpmount.Connection.{
  Device, user_request, create_as_file, create_as_directory, check_dir_existance,
  check_file_existance,
}
use mtpmount.Connection.Handlers.{do_tree_access, tree_access, create_unless_there, same_existence}
use mtpmount.Connection.TestDevice.{test_device}
use mtpmount.Dokan.{NodeView}
use mtpmount.Dokan.Backend.{World, services, do_tree_access_request}
use mtpmount.Dokan.Create.Exists.{Checks, Creates, is_dir, is_file}

-- The kind of what stands at a path, if something does.
abbrev pub kind_of : Existence → Option Bool
kind_of does_not_exist = none
kind_of is_a_directory = some true
kind_of is_a_file = some false

abbrev pub stands_of : {D S F : Type 0} → Device D S F → FsPath → Option D → S → Option Bool
stands_of dev p none s = none
stands_of dev p (some d) s = kind_of (dev.check_if_exists d p s)

abbrev pub stands : {D S F : Type 0} → Device D S F → ℕ → FsPath → World D S → Option Bool
stands dev drive p w = stands_of dev p (find_key ◌==◌ drive w.drives) w.device

module _ {D S F : Type 0} (towupper : ℕ → ℕ) (dev : Device D S F) where
  is_dir-kind_of : (x : Existence) → same_existence x is_a_directory ≡ is_dir (kind_of x)
  is_dir-kind_of x = ground arith

  is_file-kind_of : (x : Existence) → same_existence x is_a_file ≡ is_file (kind_of x)
  is_file-kind_of x = ground arith

  check_dir_answers :
      (o : Option D) (drive : ℕ) (p : FsPath) (s : S)
      → do_tree_access towupper dev o (user_request drive p check_dir_existance (some 0)) s
        ≡ (s, is_dir (stands_of dev p o s))
  unfolding do_tree_access tree_access user_request
  check_dir_answers none drive p s = refl
  check_dir_answers (some d) drive p s =
      ap (λ b. (s, b)) (is_dir-kind_of (dev.check_if_exists d p s))

  check_file_answers :
      (o : Option D) (drive : ℕ) (p : FsPath) (s : S)
      → do_tree_access towupper dev o (user_request drive p check_file_existance (some 0)) s
        ≡ (s, is_file (stands_of dev p o s))
  unfolding do_tree_access tree_access user_request
  check_file_answers none drive p s = refl
  check_file_answers (some d) drive p s =
      ap (λ b. (s, b)) (is_file-kind_of (dev.check_if_exists d p s))

module _ {D S F : Type 0} (towupper : ℕ → ℕ) (dev : Device D S F) (generator : Text → ℕ) (fuel : ℕ)
    (serve : Wait → Key → World D S → World D S × Bool)
    (list_dir : ℕ → FsPath → World D S → World D S × Option (List NodeView))
    (inspect : ℕ → FsPath → World D S → World D S × Option NodeView)
    (move_or_rename : FsPath → FsPath → ℕ → World D S → World D S × Bool)
    (expression : Text → Text → Bool) (resizes : Text → ℕ → World D S → Bool) where
  -- For every device, the checks of the services over the connection say what the device has.
  pub services-Checks :
      (drive : ℕ)
      → Checks
          (services towupper dev generator fuel serve list_dir inspect move_or_rename expression
            resizes)
          drive
          (stands dev drive)
  unfolding services do_tree_access_request
  services-Checks drive = record {
    checks_dir = λ p w.
        let e = check_dir_answers towupper dev (find_key ◌==◌ drive w.drives) drive p w.device in
        (ap (λ r. r.1) e, λ q. ap (λ r. stands dev drive q (record w { device = r.0 })) e);
    checks_file = λ p w.
        let e = check_file_answers towupper dev (find_key ◌==◌ drive w.drives) drive p w.device in
        (ap (λ r. r.1) e, λ q. ap (λ r. stands dev drive q (record w { device = r.0 })) e);
  }

module _ {F : Type 0} (towupper : ℕ → ℕ) (now : FileTime)
    (move : FsPath → FsPath → Node → Node × Bool) (discover : FsPath → F → Node → Node × Bool)
    (p : FsPath) (some_name : p ≢ [])
    (fits : name towupper (last_name towupper p).actual_case ≡ last_name towupper p) where
  abbrev tests : Device Unit Node F
  tests = test_device towupper now move discover

  created_file_stands :
      (o : Option Unit) (drive : ℕ) (s : Node)
      → let r = do_tree_access towupper tests o (user_request drive p create_as_file (some 0)) s in
        r.1 ≡ true → stands_of tests p o r.0 ≡ some false
  unfolding do_tree_access tree_access user_request create_unless_there
  created_file_stands none drive s h = cc
  created_file_stands (some d) drive s h =
      ground (arith, create_file_there towupper now p [] 0 s some_name fits)

  created_folder_stands :
      (o : Option Unit) (drive : ℕ) (s : Node)
      → let r =
          do_tree_access towupper tests o (user_request drive p create_as_directory (some 0)) s in
        r.1 ≡ true → stands_of tests p o r.0 ≡ some true
  unfolding do_tree_access tree_access user_request create_unless_there
  created_folder_stands none drive s h = cc
  created_folder_stands (some d) drive s h =
      ground (arith, create_folder_there towupper p s some_name fits)

  module _ (generator : Text → ℕ) (fuel : ℕ)
      (serve : Wait → Key → World Unit Node → World Unit Node × Bool)
      (list_dir : ℕ → FsPath → World Unit Node → World Unit Node × Option (List NodeView))
      (inspect : ℕ → FsPath → World Unit Node → World Unit Node × Option NodeView)
      (move_or_rename : FsPath → FsPath → ℕ → World Unit Node → World Unit Node × Bool)
      (expression : Text → Text → Bool) (resizes : Text → ℕ → World Unit Node → Bool) where
    -- Over the drive of the tests, what is created at a path whose last name has its upper case is
    -- there.
    pub services-Creates :
        (drive : ℕ)
        → Creates
            (services towupper tests generator fuel serve list_dir inspect move_or_rename expression
              resizes)
            drive
            (stands tests drive)
            p
    unfolding services do_tree_access_request
    services-Creates drive = record {
      creates_file = λ w h. created_file_stands (find_key ◌==◌ drive w.drives) drive w.device h;
      creates_dir = λ w h. created_folder_stands (find_key ◌==◌ drive w.drives) drive w.device h;
    }
