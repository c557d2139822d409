-- ===== src/Connection/TestDevice.antt =====
-- mtpcache/ConnectionSync.cpp over mtpaccess/AbstractConnection.cpp: what the worker relies on of a
-- device, that the drives of `Drive` give it, and a file that is pushed and pulled.
use mtpmount.Base.{
  ℕ, Bool, true, false, Option, none, some, [], ◌∷◌, ◌++◌, ◌==◌, ◌>>=◌, length, ◌≡◌, ◌≢◌, refl, ap,
  ◌∙◌, arith, append_assoc, take-eq_self,
}
use mtpmount.Base.Text.{Text, eq_text_iff}
use mtpmount.Base.Assoc.{find_key}
use mtpmount.Words.{FileTime}
use mtpmount.Path.{FsPath}
use mtpmount.Fs.{Node, file, directory, Info, Blocks}
use mtpmount.Fs.Blocks.{bytes_read-take}
use mtpmount.Drive.{
  is_a_file, check_if_exists, existence, read_file, write_file, create_file_with_stream,
  create_folder, delete_file_or_directory, rename_object, file_path_to_node,
}
use mtpmount.Drive.Invariant.{IsTree}
use mtpmount.Drive.Delete.{read_file-write_file}
use mtpmount.Connection.{
  Device, FileRequest, Connection, enqueue_file_push_request, enqueue_file_pull_request,
}
use mtpmount.Connection.Handlers.{
  thread_turn, thread_handle_tree_access_req, thread_handle_file_pull_req,
  thread_handle_file_push_req, do_file_pull, do_file_push, push_content, write_local,
}
use mtpmount.Connection.Worker.{run}

-- A file that is written succeeds, is still a file, and reads as what was written.
pub record Laws {D S F : Type 0} (dev : Device D S F) (Valid : D → S → Type 0) : Type 0 where
  pub written :
      (d : D) (p : FsPath) (t : Text) (s : S)
      → Valid d s
      → p ≢ []
      → dev.check_if_exists d p s ≡ is_a_file
      → let r = dev.write_file d p t (length t) s in
        (r.1 ≡ true)
        × ((dev.check_if_exists d p r.0 ≡ is_a_file) × (dev.read_file d p r.0 ≡ (t, true)))

-- What `readFile` wrote, and whether it succeeded.
abbrev pub read_result : Option Text → Text × Bool
read_result none = ([], false)
read_result (some t) = (t, true)

-- The one drive of a test device. `move` and `discover` are operations that are not modelled.
abbrev pub test_device :
    {F : Type 0}
    → (ℕ → ℕ)
    → FileTime
    → (FsPath → FsPath → Node → Node × Bool)
    → (FsPath → F → Node → Node × Bool)
    → Device Unit Node F
test_device towupper now move discover = record {
  check_if_exists = λ d p s. check_if_exists towupper p s;
  read_file = λ d p s. read_result (read_file towupper p s);
  write_file = λ d p t n s. write_file towupper p t n s;
  create_file = λ d p name t n s. create_file_with_stream towupper now p name t n s;
  create_folder = λ d p name s. create_folder towupper p name s;
  delete_file_or_directory = λ d p expect_file s. delete_file_or_directory towupper p expect_file s;
  rename_object = λ d p name s. rename_object towupper p name s;
  move_node = λ d p q s. move p q s;
  do_for_all_dir_content = λ d p f s. discover p f s;
  do_for_single_object = λ d p f s. discover p f s;
}

module _ (towupper : ℕ → ℕ) where
  existing_file :
      (r : Option Node)
      → existence towupper r ≡ is_a_file
      → (i : Info) × (blocks : Blocks) × (r ≡ some (file i blocks))
  unfolding existence
  existing_file none h = cc
  existing_file (some (directory i children)) h = cc
  existing_file (some (file i blocks)) h = (i, blocks, refl)

  read_is_file :
      (p : FsPath) (t : Text) (s : Node)
      → read_file towupper p s ≡ some t
      → check_if_exists towupper p s ≡ is_a_file
  unfolding read_file check_if_exists existence
  read_is_file p t s h = ground arith

  -- The drive of the tests keeps the laws of a device, for trees in which no directory has two nodes
  -- of one name: a file that is written is a file, and reads as what was written.
  pub test_device-Laws :
      {F : Type 0}
      → (now : FileTime) (move : FsPath → FsPath → Node → Node × Bool)
        (discover : FsPath → F → Node → Node × Bool)
      → Laws (test_device towupper now move discover) (λ d s. IsTree towupper s)
  unfolding check_if_exists
  test_device-Laws now move discover = record {
    written = λ d p t s valid ne h.
        let (i, blocks, found) = existing_file (file_path_to_node towupper p s) h in
        let (done, content) =
          read_file-write_file towupper p s i blocks t (length t) valid ne found in
        let content' =
          content
          ∙ ap some (bytes_read-take (length t) t (omega arith) ∙ take-eq_self _ _ (omega arith)) in
        (done, (read_is_file p t _ content', rw content' refl));
  }

-- A connection with no request.
abbrev pub idle : {D S F : Type 0} → Connection D S F → Connection D S F
idle c = record c { tree_access_requests = []; file_pull_requests = []; file_push_requests = [] }

module _ {D S F : Type 0} (towupper : ℕ → ℕ) (dev : Device D S F) (Valid : D → S → Type 0) where
  -- What the push and the pull do, one after the other.
  do_both :
      (m : Option D) (d : D) (t : Text) (push pull : FileRequest) (s : S)
      (files : Text → Option Text) (u : ℕ)
      → Laws dev Valid
      → Valid d s
      → push.d_file ≢ []
      → dev.check_if_exists d push.d_file s ≡ is_a_file
      → files push.p_file ≡ some (u ∷ t)
      → pull.d_file ≡ push.d_file
      → m ≡ some d
      → let r = do_file_push towupper dev m push files s in
        let q = do_file_pull towupper dev m pull r.0 files in
        (r.1 ≡ true) × ((q.1 ≡ true) × (q.0 pull.p_file ≡ some (u ∷ t)))
  unfolding do_file_push do_file_pull push_content write_local
  do_both m d t push pull s files u laws valid ne is_file content same mapped =
      let (ok, (still, reads)) = laws.written d push.d_file (u ∷ t) s valid ne is_file in
      rw (mapped, content, same)
        (
          ok,
          ground (
            arith,
            still,
            reads,
            ap (λ x. x.0) reads,
            ap (λ x. x.1) reads,
            eq_text_iff pull.p_file pull.p_file,
          ),
        )

  -- A local file that is not empty and is pushed to a file of the device, and then pulled to a local
  -- file: the worker does each request in one turn, both callbacks are told of success, and the
  -- local file has the content that was pushed.
  pub pull_after_push :
      (c : Connection D S F) (d : D) (drv u k l : ℕ) (path : FsPath) (t from into : Text)
      → Laws dev Valid
      → Valid d c.device
      → path ≢ []
      → dev.check_if_exists d path c.device ≡ is_a_file
      → find_key ◌==◌ drv c.my_drives ≡ some d
      → c.files from ≡ some (u ∷ t)
      → let push : FileRequest = record {
        drv = drv;
        d_file = path;
        p_file = from;
        callback = some k;
      } in
        let pull : FileRequest = record {
          drv = drv;
          d_file = path;
          p_file = into;
          callback = some l;
        } in
        (c' : Connection D S F) × ((run towupper dev 1 (enqueue_file_push_request push (idle c))
            >>= (λ c1. run towupper dev 1 (enqueue_file_pull_request pull c1)))
          ≡ some c')
        × ((c'.files into ≡ some (u ∷ t))
            × (c'.answered ≡ c.answered ++ (k, true) ∷ (l, true) ∷ []))
  unfolding run thread_turn enqueue_file_push_request enqueue_file_pull_request
      thread_handle_tree_access_req thread_handle_file_pull_req thread_handle_file_push_req
  pull_after_push c d drv u k l path t from into laws valid ne is_file mapped content =
      let push : FileRequest = record {
        drv = drv;
        d_file = path;
        p_file = from;
        callback = some k;
      } in
      let pull : FileRequest = record {
        drv = drv;
        d_file = path;
        p_file = into;
        callback = some l;
      } in
      let r = do_file_push towupper dev (find_key ◌==◌ drv c.my_drives) push c.files c.device in
      let q = do_file_pull towupper dev (find_key ◌==◌ drv c.my_drives) pull r.0 c.files in
      let (pushed, (pulled, same)) =
        do_both (find_key ◌==◌ drv c.my_drives) d t push pull c.device c.files u laws valid ne
          is_file content refl mapped in
      (
        _,
        refl,
        (same, rw (pushed, pulled) (append_assoc c.answered ((k, true) ∷ []) ((l, true) ∷ []))),
      )
