-- ===== src/Drive/Created.antt =====
-- mtpaccess/AbstractConnection.cpp: a creation that succeeds.
use mtpmount.Base.{
  ℕ, Bool, true, none, some, [], ◌∷◌, ◌++◌, ◌≡◌, ◌≢◌, inl, inr, refl, ap, ◌∙◌, arith, Bool-cases,
}
use mtpmount.Base.Text.{Text}
use mtpmount.Words.{FileTime}
use mtpmount.Path.{Name, FsPath, name, parent_path, last_name}
use mtpmount.Path.SubPath.{parent-append-last}
use mtpmount.Fs.{
  Node, file, directory, Children, nil, cons, Info, find_child, at_child, at_node, on_children,
  content_by_name, create_new_file, create_new_folder, has_name,
}
use mtpmount.Drive.{
  is_a_file, is_a_directory, existence, file_path_to_node, check_if_exists, create_file_with_stream,
  create_folder, read_file,
}
use mtpmount.Drive.Create.{read_file-create_file, find-create_folder}

module _ (towupper : ℕ → ℕ) where
  at_child-done :
      (act : Node → Node × Bool) (n : Name) (cs : Children)
      → (at_child towupper n act cs).1 ≡ true
      → (c : Node) × (find_child towupper cs n ≡ some c) × ((act c).1 ≡ true)
  unfolding at_child find_child
  at_child-done act n nil h = cc
  at_child-done act n (cons c cs) h = elim (Bool-cases (has_name towupper c n)) [
    | inl here ↦ (c, rw here refl, ground (arith, here))
    | inr other ↦
        let (d, found, done) = at_child-done act n cs (ground (arith, other)) in
        (d, rw other found, done)
  ]

  -- An operation on the children at a path that succeeds has found a directory there.
  at_node-done :
      (f : Children → Children × Bool) (q : FsPath) (root : Node)
      → (at_node towupper q (on_children towupper f) root).1 ≡ true
      → (j : Info) × (cs : Children) × (file_path_to_node towupper q root ≡ some (directory j cs))
        × ((f cs).1 ≡ true)
  unfolding at_node file_path_to_node content_by_name
  at_node-done f [] (file i blocks) h = cc
  at_node-done f [] (directory i cs) h = (i, cs, refl, h)
  at_node-done f (n ∷ q) (file i blocks) h = cc
  at_node-done f (n ∷ q) (directory i cs) h =
      let (c, found, done) = at_child-done (at_node towupper q (on_children towupper f)) n cs h in
      let (j, ds, there, ok) = at_node-done f q c done in (j, ds, rw found there, ok)

  file_was_free :
      (n : Name) (source : Text) (size : ℕ) (m c a : FileTime) (cs : Children)
      → (create_new_file towupper n source size m c a cs).1 ≡ true
      → find_child towupper cs n ≡ none
  unfolding create_new_file
  file_was_free n source size m c a cs h = ground arith

  folder_was_free :
      (n : Name) (cs : Children)
      → (create_new_folder towupper n cs).1 ≡ true
      → find_child towupper cs n ≡ none
  unfolding create_new_folder
  folder_was_free n cs h = ground arith

  read_is_file :
      (p : FsPath) (t : Text) (s : Node)
      → read_file towupper p s ≡ some t
      → check_if_exists towupper p s ≡ is_a_file
  unfolding read_file check_if_exists existence
  read_is_file p t s h = ground arith

  -- A file that is created at a path whose last name has its upper case is there.
  pub create_file_there :
      (now : FileTime) (p : FsPath) (source : Text) (size : ℕ) (root : Node)
      → p ≢ []
      → name towupper (last_name towupper p).actual_case ≡ last_name towupper p
      → let r =
          create_file_with_stream towupper now
            (parent_path towupper p)
            (last_name towupper p).actual_case
            source
            size
            root in
        r.1 ≡ true → check_if_exists towupper p r.0 ≡ is_a_file
  unfolding create_file_with_stream
  create_file_there now p source size root some_name fits h =
      let base = parent_path towupper p in
      let filename = (last_name towupper p).actual_case in
      let (j, cs, there, ok) =
        at_node-done (create_new_file towupper (name towupper filename) source size now now now)
          base root h in
      let (done, content) =
        read_file-create_file towupper now base filename source size root j cs there
          (file_was_free _ source size now now now cs ok) in
      let whole : base ++ name towupper filename ∷ [] ≡ p =
        ap (λ n. base ++ n ∷ []) fits ∙ parent-append-last towupper p some_name in
      read_is_file p _ _ (rw whole at content)

  -- So is a directory.
  pub create_folder_there :
      (p : FsPath) (root : Node)
      → p ≢ []
      → name towupper (last_name towupper p).actual_case ≡ last_name towupper p
      → let r =
          create_folder towupper (parent_path towupper p) (last_name towupper p).actual_case root in
        r.1 ≡ true → check_if_exists towupper p r.0 ≡ is_a_directory
  unfolding create_folder check_if_exists existence
  create_folder_there p root some_name fits h =
      let base = parent_path towupper p in
      let folder = (last_name towupper p).actual_case in
      let (j, cs, there, ok) =
        at_node-done (create_new_folder towupper (name towupper folder)) base root h in
      let (done, found) =
        find-create_folder towupper base folder root j cs there (folder_was_free _ cs ok) in
      let whole : base ++ name towupper folder ∷ [] ≡ p =
        ap (λ n. base ++ n ∷ []) fits ∙ parent-append-last towupper p some_name in
      rw (rw whole at found) refl
