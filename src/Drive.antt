-- ===== src/Drive.antt =====
-- mtpaccess/AbstractConnection.h and AbstractConnection.cpp: `AbstractMappableDrive`, over the tree
-- of nodes of `Fs`. `driveRoot` is the argument `root`; an operation that changes the tree returns
-- it. `now` is what `GetSystemTime` says. `deleteSubCache` does nothing on this file system.
pub mod Created
pub mod Paths
pub mod Invariant
pub mod Create
pub mod Addition
pub mod Delete
use mtpmount.Base.{
  ℕ, zero, suc, ◌+◌, ◌-◌, ◌≡◌, Bool, true, false, not, ◌&&◌, ◌||◌, Option, none, some, List, [],
  ◌∷◌, ◌++◌, if◌then◌else◌, length, ◌>>=◌, ◌==◌,
}
use mtpmount.Base.Text.{Text, backslash}
use mtpmount.Words.{FileTime}
use mtpmount.Path.{Name, FsPath, name, parse_path, full_path, parent_path}
use mtpmount.Fs.{
  Node, file, directory, Children, Info, info, is_directory, content_by_name, content_to_stream,
  payload_size, Blocks, create_new_folder, create_new_file, delete_content_by_name, at_node,
  on_children, rename_node,
}

-- `checkIfExistsReturn`
pub data Existence : Type 0 where
  does_not_exist is_a_directory is_a_file : Existence

-- `getPayloadSize` of any node
abbrev pub node_payload_size : Node → ℕ
node_payload_size (file i blocks) = payload_size blocks
node_payload_size (directory i children) = 0

module _ (towupper : ℕ → ℕ) where
  -- `_filePathToNode`
  unfoldable pub file_path_to_node : FsPath → Node → Option Node
  file_path_to_node [] node = some node
  file_path_to_node (n ∷ path) node = do
    child ← content_by_name towupper node n
    file_path_to_node path child

  unfoldable pub existence : Option Node → Existence
  existence none = does_not_exist
  existence (some node) = if is_directory node then is_a_directory else is_a_file

  unfoldable pub check_if_exists : FsPath → Node → Existence
  unfolding existence
  check_if_exists path root = existence (file_path_to_node path root)

  -- `contentToStream`, which fails on directories
  abbrev file_content : Option Node → Option Text
  file_content none = none
  file_content (some (file i blocks)) = some (content_to_stream blocks)
  file_content (some (directory i children)) = none

  -- `readFile`, with what it writes to the stream.
  unfoldable pub read_file : FsPath → Node → Option Text
  read_file path root = file_content (file_path_to_node path root)

  delete_from_parent : FsPath → Text → Node → Node × Bool
  delete_from_parent [] friendlyname root = (root, false)
  delete_from_parent (n ∷ path) friendlyname root =
      at_node towupper (parent_path towupper (n ∷ path))
        (on_children towupper (delete_content_by_name towupper friendlyname)) root

  -- `deleteMe` of the node at a path: its parent forgets the first child of its name. The root has
  -- no parent.
  unfoldable pub delete_node : FsPath → Node → Node × Bool
  unfolding delete_from_parent
  delete_node path root = elim (file_path_to_node path root) [
    | none ↦ (root, false)
    | some node ↦ delete_from_parent path (info node).friendlyname root
  ]

  write_in_parent : FsPath → Info → Text → ℕ → Node → Node × Bool
  write_in_parent parent i source size root =
      at_node towupper parent
        (on_children towupper (
          create_new_file towupper (name towupper i.friendlyname) source size i.time_modified
            i.time_created i.time_created))
        root

  -- `writeFile`: the file is deleted and created again, under its name and with its times.
  unfoldable pub write_file : FsPath → Text → ℕ → Node → Node × Bool
  unfolding write_in_parent
  write_file path source size root = elim (file_path_to_node path root) [
    | none ↦ (root, false)
    | some (directory i children) ↦ (root, false)
    | some (file i blocks) ↦
        let (root', deleted) = delete_node path root in
        if not deleted
        then (root', false)
        else write_in_parent (parent_path towupper path) i source size root'
  ]

  -- `createFileWithStream`
  unfoldable pub create_file_with_stream : FileTime → FsPath → Text → Text → ℕ → Node → Node × Bool
  create_file_with_stream now base filename source size root =
      at_node towupper base
        (on_children towupper
          (create_new_file towupper (name towupper filename) source size now now now))
        root

  -- `getFileSize`
  unfoldable pub get_file_size : FsPath → Node → ℕ
  get_file_size path root = elim (file_path_to_node path root) [
    | none ↦ 0
    | some node ↦ if not (is_directory node) then 0 else node_payload_size node
  ]

  -- `deleteFileOrDirectory`
  unfoldable pub delete_file_or_directory : FsPath → Bool → Node → Node × Bool
  delete_file_or_directory path expect_file root = elim (file_path_to_node path root) [
    | none ↦ (root, false)
    | some node ↦ if is_directory node && expect_file then (root, false) else delete_node path root
  ]

  -- `createFolder`
  unfoldable pub create_folder : FsPath → Text → Node → Node × Bool
  create_folder base folder root =
      at_node towupper base
        (on_children towupper (create_new_folder towupper (name towupper folder))) root

  -- `renameObject`
  unfoldable pub rename_object : FsPath → Name → Node → Node × Bool
  rename_object object new_name root =
      let new_path =
        parse_path towupper
          ((full_path (parent_path towupper object) ++ backslash ∷ []) ++ new_name.actual_case) in
      elim (file_path_to_node object root) [
        | none ↦ (root, false)
        | some node ↦ elim (file_path_to_node new_path root) [
          | some taken ↦ (root, false)
          | none ↦ at_node towupper object (rename_node new_name.actual_case) root
        ]
      ]
