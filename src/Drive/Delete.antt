-- ===== src/Drive/Delete.antt =====
-- mtpaccess/AbstractConnection.cpp: `deleteFileOrDirectory`, `writeFile` and `getFileSize`.
use mtpmount.Base.{
  ℕ, ◌≡◌, ◌≢◌, refl, sym, ap, ◌∙◌, Bool, true, false, none, some, [], ◌∷◌, ◌++◌, arith, ◌&&◌,
  Option-cases, inl, inr, append-nil,
}
use mtpmount.Base.Text.{Text, eq_text_iff}
use mtpmount.Path.{Name, FsPath, name, same_name, parent_path, last_name}
use mtpmount.Path.SubPath.{parent-append-last}
use mtpmount.Fs.{
  Node, file, directory, Children, Info, info, is_directory, find_child, content_by_name, at_node,
  on_children, create_new_file, delete_content_by_name, Blocks,
}
use mtpmount.Fs.Lookup.{find_child-delete, find_child-has_name, HasDistinctNames}
use mtpmount.Fs.Blocks.{bytes_read, content-fill_with_data}
use mtpmount.Drive.{
  file_path_to_node, delete_node, delete_from_parent, delete_file_or_directory, get_file_size,
  write_file, write_in_parent, read_file, file_content, check_if_exists, does_not_exist, existence,
}
use mtpmount.Drive.Paths.{at_directory, at_directory_added, parent_directory}
use mtpmount.Drive.Invariant.{IsTree}
use mtpmount.Drive.Create.{made_file, create_new_file_free}

module _ (towupper : ℕ → ℕ) where
  -- After `deleteMe` the directory of the node is as it was, less the node.
  record Deleted (q : FsPath) (n m : Name) (j : Info) (cs : Children) (result : Node × Bool)
      : Type 0 where
    done : result.1 ≡ true
    there :
        (rest : FsPath)
        → file_path_to_node towupper (q ++ rest) result.0
          ≡ file_path_to_node towupper rest (directory j cs)
    gone : find_child towupper cs n ≡ none
    gone_name : find_child towupper cs m ≡ none
    named : same_name m n ≡ true

  delete_from_parent_lem :
      (path : FsPath) (t : Text) (root : Node)
      → path ≢ []
      → delete_from_parent towupper path t root
        ≡ at_node towupper
            (parent_path towupper path)
            (on_children towupper (delete_content_by_name towupper t))
            root
  unfolding delete_from_parent
  delete_from_parent_lem [] t root ne = absurd (ne refl)
  delete_from_parent_lem (n ∷ path) t root ne = refl

  -- One child less, of whatever way it is called.
  find_child-delete_self :
      (cs : Children) (n : Name) (c : Node)
      → HasDistinctNames towupper cs
      → find_child towupper cs n ≡ some c
      → let r = delete_content_by_name towupper (info c).friendlyname cs in
        (r.1 ≡ true)
        × (find_child towupper r.0 n ≡ none)
        × (find_child towupper r.0 (name towupper (info c).friendlyname) ≡ none)
  unfolding same_name
  find_child-delete_self cs n c d h =
      let m = name towupper (info c).friendlyname in
      ground (
        arith,
        find_child-delete towupper cs n n c d h,
        find_child-delete towupper cs n m c d h,
        find_child-has_name towupper cs n c h,
        eq_text_iff n.upper_case n.upper_case,
        eq_text_iff n.upper_case m.upper_case,
        eq_text_iff m.upper_case n.upper_case,
      )

  delete_node-Deleted :
      (path : FsPath) (root node : Node)
      → IsTree towupper root
      → path ≢ []
      → file_path_to_node towupper path root ≡ some node
      → (j : Info) × (cs : Children) × Deleted
          (parent_path towupper path)
          (last_name towupper path)
          (name towupper (info node).friendlyname)
          j
          cs
          (delete_node towupper path root)
  unfolding delete_node
  delete_node-Deleted path root node tree ne h =
      let (j, cs, dir, child) = parent_directory towupper path root node ne h in
      let q = parent_path towupper path in
      let f = delete_content_by_name towupper (info node).friendlyname in
      let (ok, gone, gone_name) =
        find_child-delete_self cs (last_name towupper path) node (tree q j cs dir) child in
      (
        j,
        (f cs).0,
        rw (h, delete_node, delete_from_parent_lem path (info node).friendlyname root ne)
            (record {
              done = (at_directory towupper f q [] root j cs dir).1 ∙ ok;
              there = λ rest. (at_directory towupper f q rest root j cs dir).0;
              gone = gone;
              gone_name = gone_name;
              named = find_child-has_name towupper cs (last_name towupper path) node child;
            }),
      )

  &&_false : (b : Bool) → (b && false) ≡ false
  &&_false true = refl
  &&_false false = refl

  file_path_to_node-Deleted :
      (path : FsPath) (m : Name) (j : Info) (cs : Children) (result : Node × Bool)
      → path ≢ []
      → Deleted (parent_path towupper path) (last_name towupper path) m j cs result
      → file_path_to_node towupper path result.0 ≡ none
  unfolding file_path_to_node content_by_name
  file_path_to_node-Deleted path m j cs result ne d =
      ap (λ p. file_path_to_node towupper p result.0) (sym (parent-append-last towupper path ne))
      ∙ d.there (last_name towupper path ∷ [])
      ∙ (rw d.gone)

  file_path_to_node_nil : (c : Node) → file_path_to_node towupper [] c ≡ some c
  unfolding file_path_to_node
  file_path_to_node_nil c = refl

  delete_file_or_directory_lem :
      (path : FsPath) (root node : Node)
      → file_path_to_node towupper path root ≡ some node
      → delete_file_or_directory towupper path false root ≡ delete_node towupper path root
  unfolding delete_file_or_directory
  delete_file_or_directory_lem path root node h =
      rw (h, delete_file_or_directory) (rw (&&_false (is_directory node)))

  write_file_lem :
      (path : FsPath) (root : Node) (i : Info) (blocks : Blocks) (source : Text) (size : ℕ)
      → file_path_to_node towupper path root ≡ some (file i blocks)
      → (delete_node towupper path root).1 ≡ true
      → write_file towupper path source size root
        ≡ write_in_parent towupper
            (parent_path towupper path)
            i
            source
            size
            (delete_node towupper path root).0
  unfolding write_file
  write_file_lem path root i blocks source size h d = rw (h, write_file) (rw d)

  -- A file or a directory that is deleted, and is not the root, is gone.
  pub check_if_exists-delete :
      (path : FsPath) (root node : Node)
      → IsTree towupper root
      → path ≢ []
      → file_path_to_node towupper path root ≡ some node
      → let (root', done) = delete_file_or_directory towupper path false root in
        (done ≡ true) × (check_if_exists towupper path root' ≡ does_not_exist)
  unfolding check_if_exists
  check_if_exists-delete path root node tree ne h =
      let (j, cs, d) = delete_node-Deleted path root node tree ne h in
      rw (delete_file_or_directory_lem path root node h) (
        d.done,
        ap (existence towupper) (file_path_to_node-Deleted path _ j cs _ ne d)
            ∙ (unfold existence in refl),
      )

  at_last :
      (path : FsPath)
      → path ≢ []
      → (root c : Node)
      → file_path_to_node towupper (parent_path towupper path ++ last_name towupper path ∷ []) root
        ≡ some c
      → file_path_to_node towupper path root ≡ some c
  at_last path ne root c h =
      ap (λ p. file_path_to_node towupper p root) (sym (parent-append-last towupper path ne)) ∙ h

  -- A file is written by way of deleting it and creating it again; that succeeds, and what is read
  -- then is what was written.
  pub read_file-write_file :
      (path : FsPath) (root : Node) (i : Info) (blocks : Blocks) (source : Text) (size : ℕ)
      → IsTree towupper root
      → path ≢ []
      → file_path_to_node towupper path root ≡ some (file i blocks)
      → let (root', done) = write_file towupper path source size root in
        (done ≡ true) × (read_file towupper path root' ≡ some (bytes_read size source))
  unfolding read_file write_in_parent
  read_file-write_file path root i blocks source size tree ne h =
      let (j, cs, d) = delete_node-Deleted path root (file i blocks) tree ne h in
      let q = parent_path towupper path in
      let c =
        made_file towupper i.time_modified i.time_created i.time_created i.friendlyname source
          size in
      let (done, found) =
        at_directory_added towupper
          (create_new_file towupper (name towupper i.friendlyname) source size i.time_modified
            i.time_created i.time_created)
          q (last_name towupper path) (delete_node towupper path root).0 c j cs
          (ap (λ p. file_path_to_node towupper p (delete_node towupper path root).0)
              (sym (append-nil q))
            ∙ d.there []
            ∙ file_path_to_node_nil (directory j cs))
          (create_new_file_free towupper (name towupper i.friendlyname) source size i.time_modified
              i.time_created i.time_created cs d.gone_name
            ∙ (unfold name in refl))
          d.gone d.named in
      rw (write_file_lem path root i blocks source size h d.done, write_in_parent)
        (
          done,
          ap (file_content towupper) (at_last path ne _ c found)
              ∙ ap some (content-fill_with_data source size),
        )

  -- `getFileSize` is 0 for every path of every tree.
  pub get_file_size_zero : (path : FsPath) (root : Node) → get_file_size towupper path root ≡ 0
  unfolding get_file_size
  get_file_size_zero path root = elim (Option-cases (file_path_to_node towupper path root)) [
    | inl e ↦ rw (e, get_file_size) refl
    | inr (file i blocks, e) ↦ rw (e, get_file_size) refl
    | inr (directory i children, e) ↦ rw (e, get_file_size) refl
  ]
