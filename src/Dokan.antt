-- ===== src/Dokan.antt =====
-- dokanconnect/DokanDriveWrapper.h and DokanDriveWrapper.cpp: what the callbacks of a drive call. `Services` are the
-- blocking calls of the cache, of the connection and of the local file system that the callbacks make;
-- `W` is the state of all three.
pub mod LocalFile
pub mod Create
pub mod Handlers
pub mod Backend
pub mod Sizes
pub mod Mounting
use mtpmount.Base.{ℕ, ◌+◌, ◌/◌, ◌%◌, ◌^◌, Bool, true, false, ◌||◌, Option, List, ◌==◌}
use mtpmount.Base.Text.{Text}
use mtpmount.Path.{FsPath}
use mtpmount.Words.{FileTime}
use mtpmount.Connection.{UserTreeAccessCmd}

-- What a function object of a discovery reads of a node (`AbstractFsReadOnlyNode`).
pub record NodeView : Type 0 where
  pub node_name : Text
  pub node_path : FsPath
  pub is_directory : Bool
  pub payload_size : ℕ
  pub modification_time : FileTime

-- `request` is doTreeAccessRequest with a command of the user, `list_dir` and `inspect` with a
-- function object that returns true for every node that it is called with: the nodes, if the request
-- succeeds. `begin_access` and `end_access` are beginAccessByFileName and endFileAccessByName, `true`
-- for writing. `local_file` is a file of the host, which can be opened if it is there;
-- `put_local_file` is what it holds from then on, and `resizes` says that _chsize_s can give it a
-- size.
pub record Services (W : Type 0) : Type 0 where
  pub request : ℕ → FsPath → UserTreeAccessCmd → W → W × Bool
  pub list_dir : ℕ → FsPath → W → W × Option (List NodeView)
  pub inspect : ℕ → FsPath → W → W × Option NodeView
  pub begin_access : FsPath → ℕ → Bool → W → W × Text
  pub end_access : FsPath → ℕ → Bool → W → W
  pub delete_cache_entry : FsPath → ℕ → W → W × Bool
  pub push_single_file : FsPath → ℕ → W → W × Bool
  pub move_or_rename_inode : FsPath → FsPath → ℕ → W → W × Bool
  pub get_file_size_of_cached_file : FsPath → ℕ → W → ℕ
  pub local_file : Text → W → Option Text
  pub put_local_file : Text → Text → W → W
  pub resizes : Text → ℕ → W → Bool
  pub name_in_expression : Text → Text → Bool

-- The status codes that the callbacks return.
pub data Status : Type 0 where
  success unsuccessful not_implemented access_denied : Status
  object_name_exists object_name_collision object_name_not_found object_path_not_found : Status
  not_a_directory directory_not_empty : Status

bit : ℕ → ℕ → Bool
bit k mask = mask / 2 ^ k % 2 == 1

-- `isThisAWriteAccess`: GENERIC_ALL, GENERIC_WRITE, FILE_WRITE_DATA, FILE_APPEND_DATA,
-- FILE_WRITE_ATTRIBUTES and FILE_WRITE_EA.
unfoldable pub is_this_a_write_access : ℕ → Bool
unfolding bit
is_this_a_write_access desired_access =
    (bit 28 desired_access || bit 30 desired_access)
    || ((bit 1 desired_access || bit 2 desired_access)
        || (bit 8 desired_access || bit 4 desired_access))

-- `DokanDriveWrapper`, as the callbacks use it.
pub record Wrapper : Type 0 where
  pub drive_id : ℕ
  pub volume_name : Text
