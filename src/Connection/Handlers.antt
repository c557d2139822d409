-- ===== src/Connection/Handlers.antt =====
-- mtpcache/ConnectionSync.cpp: the handlers of the worker thread, `_threadHandleTreeAccessReq`,
-- `_threadHandleFilePullReq` and `_threadHandleFilePushReq`, and `ConnectionSyncThreadRoutine`.
use mtpmount.Base.{
  ℕ, Bool, true, false, not, ◌&&◌, Option, none, some, List, [], ◌∷◌, ◌++◌, ltb, ◌==◌,
  if◌then◌else◌, length,
}
use mtpmount.Base.Text.{Text, eq_text}
use mtpmount.Base.Assoc.{find_key}
use mtpmount.Path.{FsPath, name, parse_path, parent_path, last_name}
use mtpmount.Drive.{Existence, does_not_exist, is_a_directory, is_a_file}
use mtpmount.Connection.{
  Device, TreeAccessRequest, TreeAccessCmd, FileRequest, Connection, internal_create_as_file,
  internal_create_as_directory, internal_delete_dir_or_file, internal_discover_directory,
  internal_dir_existance, internal_file_existance, internal_discover_inode, internal_rename_inode,
  internal_move_inode,
}

abbrev pub same_existence : Existence → Existence → Bool
same_existence does_not_exist does_not_exist = true
same_existence is_a_directory is_a_directory = true
same_existence is_a_file is_a_file = true
same_existence _ _ = false

abbrev pub has_callback : Option ℕ → Bool
has_callback none = false
has_callback (some k) = true

-- `if (req._callback != NULL) { req._callback->callback(ok); }`
abbrev pub answer : Option ℕ → Bool → List (ℕ × Bool)
answer none ok = []
answer (some k) ok = (k, ok) ∷ []

-- A local file is opened for output and written.
unfoldable pub write_local : Text → Text → (Text → Option Text) → Text → Option Text
write_local file content files f = if eq_text file f then some content else files f

module _ {D S F : Type 0} (towupper : ℕ → ℕ) (dev : Device D S F) where
  -- The creation of a file or a directory: `create` is done unless there is an object and a callback
  -- to tell of it.
  unfoldable pub create_unless_there :
      Existence → (S → S × Bool) → D → TreeAccessRequest F → S → S × Bool
  create_unless_there wanted create d req s =
      let r = dev.check_if_exists d req.dir s in
      if ltb (length req.dir) 1
      then (s, false)
      else if not (same_existence r does_not_exist) && has_callback req.callback
      then (s, same_existence r wanted)
      else create s

  unfoldable pub discover : (F → S → S × Bool) → Option F → S → S × Bool
  discover act none s = (s, false)
  discover act (some func) s = act func s

  -- The `switch` over the kinds of requests: the state of the device and what the callback is told.
  unfoldable pub tree_access : TreeAccessCmd → D → TreeAccessRequest F → S → S × Bool
  unfolding create_unless_there discover
  tree_access internal_discover_directory d req s =
      if not (same_existence (dev.check_if_exists d req.dir s) is_a_directory)
      then (s, false)
      else discover (dev.do_for_all_dir_content d req.dir) req.dirfunc s
  tree_access internal_delete_dir_or_file d req s =
      if same_existence (dev.check_if_exists d req.dir s) does_not_exist
      then (s, true)
      else dev.delete_file_or_directory d req.dir false s
  tree_access internal_create_as_file d req s =
      create_unless_there is_a_file
        (dev.create_file d (parent_path towupper req.dir) (last_name towupper req.dir).actual_case
          [] 0)
        d req s
  tree_access internal_create_as_directory d req s =
      create_unless_there is_a_directory
        (dev.create_folder d (parent_path towupper req.dir)
          (last_name towupper req.dir).actual_case)
        d req s
  tree_access internal_dir_existance d req s =
      (s, same_existence (dev.check_if_exists d req.dir s) is_a_directory)
  tree_access internal_file_existance d req s =
      (s, same_existence (dev.check_if_exists d req.dir s) is_a_file)
  tree_access internal_discover_inode d req s =
      discover (dev.do_for_single_object d req.dir) req.dirfunc s
  tree_access internal_rename_inode d req s = dev.rename_object d req.dir (name towupper req.dir2) s
  tree_access internal_move_inode d req s = dev.move_node d req.dir (parse_path towupper req.dir2) s

  -- A request to a drive that is not mapped fails.
  unfoldable pub do_tree_access : Option D → TreeAccessRequest F → S → S × Bool
  unfolding tree_access
  do_tree_access none req s = (s, false)
  do_tree_access (some d) req s = tree_access req.cmd d req s

  -- `_threadHandleTreeAccessReq`
  unfoldable pub thread_handle_tree_access_req : Connection D S F → Connection D S F × Bool
  unfolding do_tree_access
  thread_handle_tree_access_req c = elim c.tree_access_requests [
    | [] ↦ (c, false)
    | req ∷ rest ↦
        let (s, ok) = do_tree_access (find_key ◌==◌ req.drv c.my_drives) req c.device in
        (
          record c {
            tree_access_requests = rest;
            device = s;
            answered = c.answered ++ answer req.callback ok;
          },
          true,
        )
  ]

  -- A pull: the local files and what the callback is told.
  unfoldable pub do_file_pull :
      Option D → FileRequest → S → (Text → Option Text) → (Text → Option Text) × Bool
  unfolding write_local
  do_file_pull none req s files = (files, false)
  do_file_pull (some d) req s files =
      if not (same_existence (dev.check_if_exists d req.d_file s) is_a_file)
      then (files, false)
      else (
        write_local req.p_file (dev.read_file d req.d_file s).0 files,
        (dev.read_file d req.d_file s).1,
      )

  -- `_threadHandleFilePullReq`
  unfoldable pub thread_handle_file_pull_req : Connection D S F → Connection D S F × Bool
  unfolding do_file_pull
  thread_handle_file_pull_req c = elim c.file_pull_requests [
    | [] ↦ (c, false)
    | req ∷ rest ↦
        let (files, ok) = do_file_pull (find_key ◌==◌ req.drv c.my_drives) req c.device c.files in
        (
          record c {
            file_pull_requests = rest;
            files = files;
            answered = c.answered ++ answer req.callback ok;
          },
          true,
        )
  ]

  -- A push: a local file that is missing or empty is not written.
  unfoldable pub push_content : D → FsPath → Option Text → S → S × Bool
  push_content d path none s = (s, false)
  push_content d path (some []) s = (s, false)
  push_content d path (some (u ∷ t)) s = dev.write_file d path (u ∷ t) (length (u ∷ t)) s

  unfoldable pub do_file_push : Option D → FileRequest → (Text → Option Text) → S → S × Bool
  unfolding push_content
  do_file_push none req files s = (s, false)
  do_file_push (some d) req files s = push_content d req.d_file (files req.p_file) s

  -- `_threadHandleFilePushReq`
  unfoldable pub thread_handle_file_push_req : Connection D S F → Connection D S F × Bool
  unfolding do_file_push
  thread_handle_file_push_req c = elim c.file_push_requests [
    | [] ↦ (c, false)
    | req ∷ rest ↦
        let (s, ok) = do_file_push (find_key ◌==◌ req.drv c.my_drives) req c.files c.device in
        (
          record c {
            file_push_requests = rest;
            device = s;
            answered = c.answered ++ answer req.callback ok;
          },
          true,
        )
  ]

  -- One turn of `ConnectionSyncThreadRoutine`; `none` at its end. With nothing to do the thread
  -- waits in `_threadYield`, which takes the flag back.
  unfoldable pub thread_turn : Connection D S F → Option (Connection D S F)
  unfolding thread_handle_tree_access_req thread_handle_file_pull_req thread_handle_file_push_req
  thread_turn c =
      let tree = thread_handle_tree_access_req c in
      let pull = thread_handle_file_pull_req tree.0 in
      let push = thread_handle_file_push_req pull.0 in
      if tree.1
      then some tree.0
      else if pull.1
      then some pull.0
      else if push.1
      then some push.0
      else if push.0.thread_normal_stop
      then none
      else some (record push.0 { cond_var_unlocked = false })
