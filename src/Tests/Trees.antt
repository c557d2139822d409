-- ===== src/Tests/Trees.antt =====
-- Operations of a drive.
use mtpmount.Base.{◌≡◌, refl, true, false, some, [], ◌∷◌, ◌++◌}
use mtpmount.Base.Text.{codes}
use mtpmount.Path.{name, same_name}
use mtpmount.Fs.{
  Node, file, directory, nil, Info, new_info, find_child, add_child, create_new_folder,
  create_new_file, at_node, at_child, content_by_name, fill_with_data,
}
use mtpmount.Fs.Blocks.{bytes_read}
use mtpmount.Drive.{
  file_path_to_node, read_file, create_file_with_stream, create_folder, write_file,
  delete_file_or_directory, check_if_exists, does_not_exist,
}
use mtpmount.Drive.Invariant.{IsTree, IsLeaf-IsTree}
use mtpmount.Drive.Create.{read_file-create_file}
use mtpmount.Drive.Addition.{IsAddition, create_file-IsAddition, create_folder-IsAddition}
use mtpmount.Drive.Delete.{check_if_exists-delete, read_file-write_file}
use mtpmount.Tests.Values.{ascii_upper, dcim, photo_path, noon, empty_root}

-- The folder `DCIM`, and in it the file.
abbrev pub with_folder : Node
with_folder = (create_folder ascii_upper [] (codes "DCIM") empty_root).0

abbrev pub with_photo : Node
with_photo =
    (create_file_with_stream ascii_upper noon (dcim ∷ []) (codes "a b.jpg") (codes "xyz") 3
      with_folder).0

empty_root-IsTree : IsTree ascii_upper empty_root
empty_root-IsTree = IsLeaf-IsTree ascii_upper empty_root tt

with_folder-IsTree : IsTree ascii_upper with_folder
with_folder-IsTree =
    (create_folder-IsAddition ascii_upper [] (codes "DCIM") empty_root empty_root-IsTree).tree

pub with_photo-IsTree : IsTree ascii_upper with_photo
with_photo-IsTree =
    (create_file-IsAddition ascii_upper noon (dcim ∷ []) (codes "a b.jpg") (codes "xyz") 3
      with_folder with_folder-IsTree).tree

create_file-IsAddition_example : IsAddition ascii_upper with_folder (
    create_file_with_stream ascii_upper noon
      (dcim ∷ [])
      (codes "a b.jpg")
      (codes "xyz")
      3
      with_folder)
create_file-IsAddition_example =
    create_file-IsAddition ascii_upper noon (dcim ∷ []) (codes "a b.jpg") (codes "xyz") 3
      with_folder with_folder-IsTree

folder_node :
    file_path_to_node ascii_upper (dcim ∷ []) with_folder
    ≡ some (directory (new_info (codes "DCIM")) nil)
unfolding file_path_to_node create_folder at_node create_new_folder find_child add_child
    content_by_name new_info name same_name
folder_node = refl

read_file-create_file_example :
    let (root', done) =
      create_file_with_stream ascii_upper noon
        (dcim ∷ [])
        (codes "a b.jpg")
        (codes "xyz")
        3
        with_folder in
    (done ≡ true)
    × (read_file ascii_upper (dcim ∷ [] ++ name ascii_upper (codes "a b.jpg") ∷ []) root'
        ≡ some (bytes_read 3 (codes "xyz")))
read_file-create_file_example =
    read_file-create_file ascii_upper noon (dcim ∷ []) (codes "a b.jpg") (codes "xyz") 3 with_folder
      (new_info (codes "DCIM")) nil folder_node (unfold find_child in refl)

abbrev photo_info : Info
photo_info = record {
  friendlyname = codes "a b.jpg";
  time_created = noon;
  time_modified = noon;
  time_authored = noon;
}

pub photo_node :
    file_path_to_node ascii_upper photo_path with_photo
    ≡ some (file photo_info (fill_with_data (codes "xyz") 3))
unfolding file_path_to_node create_folder create_file_with_stream at_node at_child create_new_folder
    create_new_file find_child add_child content_by_name new_info name same_name
photo_node = refl

check_if_exists-delete_example :
    let (root', done) = delete_file_or_directory ascii_upper photo_path false with_photo in
    (done ≡ true) × (check_if_exists ascii_upper photo_path root' ≡ does_not_exist)
check_if_exists-delete_example =
    check_if_exists-delete ascii_upper photo_path with_photo
      (file photo_info (fill_with_data (codes "xyz") 3)) with_photo-IsTree (λ e. cc) photo_node

read_file-write_file_example :
    let (root', done) = write_file ascii_upper photo_path (codes "new") 3 with_photo in
    (done ≡ true) × (read_file ascii_upper photo_path root' ≡ some (bytes_read 3 (codes "new")))
read_file-write_file_example =
    read_file-write_file ascii_upper photo_path with_photo photo_info
      (fill_with_data (codes "xyz") 3) (codes "new") 3 with_photo-IsTree (λ e. cc) photo_node
