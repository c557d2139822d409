-- ===== src/Drive/Create.antt =====
-- mtpaccess/AbstractConnection.cpp: what `createFileWithStream` and `createFolder` create.
use mtpmount.Base.{ℕ, ◌≡◌, refl, ap, true, none, some, [], ◌∷◌, ◌++◌, arith, map}
use mtpmount.Base.Text.{Text, eq_text_iff}
use mtpmount.Words.{FileTime}
use mtpmount.Path.{Name, FsPath, name, same_name}
use mtpmount.Fs.{
  Node, file, directory, Children, nil, Info, info, find_child, create_new_file, create_new_folder,
  add_child, has_name, new_info, fill_with_data,
}
use mtpmount.Fs.Blocks.{bytes_read, content-fill_with_data}
use mtpmount.Drive.{file_path_to_node, create_file_with_stream, create_folder, read_file}
use mtpmount.Drive.Paths.{at_directory_added}

module _ (towupper : ℕ → ℕ) where
  -- What `create_new_file` and `create_new_folder` make.
  abbrev pub made_file : FileTime → FileTime → FileTime → Text → Text → ℕ → Node
  made_file modified created authored filename source size =
      file
        (record {
          friendlyname = filename;
          time_created = created;
          time_modified = modified;
          time_authored = authored;
        })
        (fill_with_data source size)

  pub create_new_file_free :
      (n : Name) (source : Text) (size : ℕ) (m c a : FileTime) (cs : Children)
      → find_child towupper cs n ≡ none
      → create_new_file towupper n source size m c a cs
        ≡ (add_child cs (made_file m c a n.actual_case source size), true)
  unfolding create_new_file
  create_new_file_free n source size m c a cs free = rw (free, create_new_file)

  pub create_new_folder_free :
      (n : Name) (cs : Children)
      → find_child towupper cs n ≡ none
      → create_new_folder towupper n cs
        ≡ (add_child cs (directory (new_info n.actual_case) nil), true)
  unfolding create_new_folder
  create_new_folder_free n cs free = rw (free, create_new_folder)

  has_name_self :
      (n : Name) (c : Node)
      → (info c).friendlyname ≡ n.actual_case
      → n.upper_case ≡ map towupper n.actual_case
      → has_name towupper c n ≡ true
  unfolding same_name name
  has_name_self n c e f =
      ground (arith, eq_text_iff (map towupper (info c).friendlyname) n.upper_case)

  -- A file that is created in a directory without a node of its name is there, with the bytes read
  -- from the stream.
  pub read_file-create_file :
      (now : FileTime) (base : FsPath) (filename source : Text) (size : ℕ) (root : Node) (i : Info)
      (children : Children)
      → file_path_to_node towupper base root ≡ some (directory i children)
      → find_child towupper children (name towupper filename) ≡ none
      → let (root', done) = create_file_with_stream towupper now base filename source size root in
        (done ≡ true)
        × (read_file towupper (base ++ name towupper filename ∷ []) root'
            ≡ some (bytes_read size source))
  unfolding create_file_with_stream read_file name
  read_file-create_file now base filename source size root i children h free =
      let n = name towupper filename in
      let (done, found) =
        at_directory_added towupper (create_new_file towupper n source size now now now) base n root
          (made_file now now now filename source size) i children h
          (create_new_file_free n source size now now now children free) free
          (has_name_self n (made_file now now now filename source size) refl refl) in
      (done, rw found (ap some (content-fill_with_data source size)))

  -- A folder that is created in a directory without a node of its name is there, and empty.
  pub find-create_folder :
      (base : FsPath) (folder : Text) (root : Node) (i : Info) (children : Children)
      → file_path_to_node towupper base root ≡ some (directory i children)
      → find_child towupper children (name towupper folder) ≡ none
      → let (root', done) = create_folder towupper base folder root in
        (done ≡ true)
        × (file_path_to_node towupper (base ++ name towupper folder ∷ []) root'
            ≡ some (directory (new_info folder) nil))
  unfolding create_folder name
  find-create_folder base folder root i children h free =
      let n = name towupper folder in
      at_directory_added towupper (create_new_folder towupper n) base n root
        (directory (new_info folder) nil) i children h (create_new_folder_free n children free) free
        (has_name_self n (directory (new_info folder) nil) (unfold new_info in refl) refl)
