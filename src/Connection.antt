-- ===== src/Connection.antt =====
-- mtpcache/ConnectionSync.h and ConnectionSync.cpp: `ConnectionSync`, the queues of requests to a
-- device. `D` are the drives (`AbstractMappableDrive*`), `S` is the state of the device and `F` the
-- function objects of a discovery. A callback object is a number. `files` is the local file system:
-- an output file can always be opened. The output to `_outputter` is left out.
pub mod Handlers
pub mod Worker
pub mod Drives
pub mod TestDevice
pub mod Wakeup
use mtpmount.Base.{
  ℕ, zero, suc, ◌+◌, ◌-◌, Bool, true, false, not, ◌&&◌, ◌||◌, Option, none, some, List, [], ◌∷◌,
  ◌++◌, ltb, ◌==◌, if◌then◌else◌, length, get_elem?,
}
use mtpmount.Base.Int.{ℤ, pos, negsuc}
use mtpmount.Base.Text.{Text, eq_text, codes}
use mtpmount.Base.Assoc.{find_key, erase_key, insert_key}
use mtpmount.Path.{FsPath, Name, full_path, parse_path}
use mtpmount.Drive.{Existence}

-- What `ConnectionSync` calls of `AbstractMappableDrive`.
pub record Device (D S F : Type 0) : Type 0 where
  pub check_if_exists : D → FsPath → S → Existence
  pub read_file : D → FsPath → S → Text × Bool
  pub write_file : D → FsPath → Text → ℕ → S → S × Bool
  pub create_file : D → FsPath → Text → Text → ℕ → S → S × Bool
  pub create_folder : D → FsPath → Text → S → S × Bool
  pub delete_file_or_directory : D → FsPath → Bool → S → S × Bool
  pub rename_object : D → FsPath → Name → S → S × Bool
  pub move_node : D → FsPath → FsPath → S → S × Bool
  pub do_for_all_dir_content : D → FsPath → F → S → S × Bool
  pub do_for_single_object : D → FsPath → F → S → S × Bool

-- `TreeAccessCmdType`, `UserTreeAccessCmdType`
pub data TreeAccessCmd : Type 0 where
  internal_create_as_file internal_create_as_directory : TreeAccessCmd
  internal_delete_dir_or_file internal_discover_directory : TreeAccessCmd
  internal_dir_existance internal_file_existance : TreeAccessCmd
  internal_discover_inode internal_rename_inode internal_move_inode : TreeAccessCmd

pub data UserTreeAccessCmd : Type 0 where
  create_as_file create_as_directory delete_dir_or_file : UserTreeAccessCmd
  check_dir_existance check_file_existance : UserTreeAccessCmd

-- `FilePullRequest` and `FilePushRequest`
pub record FileRequest : Type 0 where
  pub drv : ℕ
  pub d_file : FsPath
  pub p_file : Text
  pub callback : Option ℕ

pub record TreeAccessRequest (F : Type 0) : Type 0 where
  pub drv : ℕ
  pub dir : FsPath
  pub dir2 : Text
  pub callback : Option ℕ
  pub dirfunc : Option F
  pub cmd : TreeAccessCmd

-- `answered` are the calls of callbacks, the first one first.
pub record Connection (D S F : Type 0) : Type 0 where
  pub tree_access_requests : List (TreeAccessRequest F)
  pub file_pull_requests : List FileRequest
  pub file_push_requests : List FileRequest
  pub my_drives : List (ℕ × D)
  pub my_drives_counter : ℕ
  pub thread_normal_stop : Bool
  pub cond_var_unlocked : Bool
  pub device : S
  pub files : Text → Option Text
  pub answered : List (ℕ × Bool)

-- The constructors of `TreeAccessRequest`.
abbrev pub internal_cmd : UserTreeAccessCmd → TreeAccessCmd
internal_cmd create_as_file = internal_create_as_file
internal_cmd create_as_directory = internal_create_as_directory
internal_cmd delete_dir_or_file = internal_delete_dir_or_file
internal_cmd check_dir_existance = internal_dir_existance
internal_cmd check_file_existance = internal_file_existance

module _ {F : Type 0} (drive_id : ℕ) (path : FsPath) where
  unfoldable pub discover_request : F → Option ℕ → TreeAccessRequest F
  discover_request func callback = record {
    drv = drive_id;
    dir = path;
    dir2 = codes "unused";
    callback = callback;
    dirfunc = some func;
    cmd = internal_discover_directory;
  }

  unfoldable pub discover_inode_request : F → Option ℕ → TreeAccessRequest F
  discover_inode_request func callback = record {
    drv = drive_id;
    dir = path;
    dir2 = codes "unused";
    callback = callback;
    dirfunc = some func;
    cmd = internal_discover_inode;
  }

  unfoldable pub rename_request : Text → Option ℕ → TreeAccessRequest F
  rename_request new_name callback = record {
    drv = drive_id;
    dir = path;
    dir2 = new_name;
    callback = callback;
    dirfunc = none;
    cmd = internal_rename_inode;
  }

  unfoldable pub move_request : FsPath → Option ℕ → TreeAccessRequest F
  move_request new_path callback = record {
    drv = drive_id;
    dir = path;
    dir2 = full_path new_path;
    callback = callback;
    dirfunc = none;
    cmd = internal_move_inode;
  }

  unfoldable pub user_request : UserTreeAccessCmd → Option ℕ → TreeAccessRequest F
  user_request type callback = record {
    drv = drive_id;
    dir = path;
    dir2 = codes "unused";
    callback = callback;
    dirfunc = none;
    cmd = internal_cmd type;
  }

module _ {D S F : Type 0} where
  -- The constructor.
  unfoldable pub new_connection : S → (Text → Option Text) → Connection D S F
  new_connection device files = record {
    tree_access_requests = [];
    file_pull_requests = [];
    file_push_requests = [];
    my_drives = [];
    my_drives_counter = 0;
    thread_normal_stop = false;
    cond_var_unlocked = false;
    device = device;
    files = files;
    answered = [];
  }

  -- `mapNewDrive`: `names` and `by_name` are what the connection answers, `decided` the index that
  -- the decider takes. An index that is no index of the list gives -1.
  unfoldable pub map_new_drive :
      List Text → (Text → D) → ℤ → Connection D S F → Connection D S F × ℤ
  map_new_drive names by_name (negsuc i) c = (c, negsuc 0)
  map_new_drive names by_name (pos i) c = elim (get_elem? names i) [
    | none ↦ (c, negsuc 0)
    | some n ↦ (
      record c {
        my_drives = insert_key ◌==◌ c.my_drives_counter (by_name n) c.my_drives;
        my_drives_counter = c.my_drives_counter + 1;
      },
      pos c.my_drives_counter,
    )
  ]

  -- `unmapDrive`
  unfoldable pub unmap_drive : ℕ → Connection D S F → Connection D S F × Bool
  unmap_drive id c = elim (find_key ◌==◌ id c.my_drives) [
    | none ↦ (c, false)
    | some d ↦ (record c { my_drives = erase_key ◌==◌ id c.my_drives }, true)
  ]

  -- The `enqueue` methods, each with `_threadWakeup`.
  unfoldable pub enqueue_file_push_request : FileRequest → Connection D S F → Connection D S F
  enqueue_file_push_request r c = record c {
    file_push_requests = c.file_push_requests ++ r ∷ [];
    cond_var_unlocked = true;
  }

  unfoldable pub enqueue_file_pull_request : FileRequest → Connection D S F → Connection D S F
  enqueue_file_pull_request r c = record c {
    file_pull_requests = c.file_pull_requests ++ r ∷ [];
    cond_var_unlocked = true;
  }

  unfoldable pub enqueue_tree_access_request :
      TreeAccessRequest F → Connection D S F → Connection D S F
  enqueue_tree_access_request r c = record c {
    tree_access_requests = c.tree_access_requests ++ r ∷ [];
    cond_var_unlocked = true;
  }

  -- The destructor, before it waits for the thread.
  unfoldable pub stop_thread : Connection D S F → Connection D S F
  stop_thread c = record c { thread_normal_stop = true; cond_var_unlocked = true }
