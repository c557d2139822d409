-- ===== src/Tests/Moves.antt =====
-- A file that gets a new name, with its entry in the cache.
use mtpmount.Base.{true, false, Bool, none, some, [], ◌∷◌, ◌≡◌, refl, ◌&&◌, if◌then◌else◌}
use mtpmount.Path.{
  FsPath, lt_path, name, same_name, path_on_layer, layers, left_sub_path, full_path, parse_path,
}
use mtpmount.Fs.{
  Node, at_node, at_child, find_child, add_child, content_by_name, create_new_folder,
  create_new_file, fill_with_data, new_info, rename_node,
}
use mtpmount.Drive.{
  rename_object, check_if_exists, existence, file_path_to_node, create_file_with_stream,
  create_folder,
}
use mtpmount.Base.Assoc.{find_key}
use mtpmount.Cache.{FileCache, find_entry}
use mtpmount.Cache.TableKey.{Key, same_key, lt_key}
use mtpmount.Cache.Move.{Content, no_more, relocate, is_dir_request, move_or_rename_inode}
use mtpmount.Cache.Move.Moved.{renamed, find-move_or_rename_inode}
use mtpmount.Cache.Sync.{must_move, different_loop}
use mtpmount.Connection.{user_request, rename_request}
use mtpmount.Connection.Handlers.{do_tree_access, tree_access}
use mtpmount.Tests.Values.{ascii_upper, photo_path, other_path}
use mtpmount.Tests.Trees.{with_photo}
use mtpmount.Tests.Requests.{device}
use mtpmount.Tests.Files.{two_files, two_files-Distinct, photo_key, other_key}

abbrev no_content : FsPath → Node → Node × Content
no_content p s = (s, no_more)

-- The worker refuses to push a file that the device does not have.
abbrev no_push : FileCache → FileCache → Node → Node
no_push c c' s = s

abbrev moved : Node × Bool
moved =
    relocate ascii_upper 1 device ((1, tt) ∷ []) no_content no_push photo_path other_path with_photo

renamed_on_device : moved.1 ≡ true
unfolding relocate must_move different_loop same_name path_on_layer layers left_sub_path full_path
    parse_path do_tree_access tree_access find_key user_request rename_request rename_object
    check_if_exists existence file_path_to_node content_by_name create_file_with_stream
    create_folder at_node at_child find_child add_child create_new_folder create_new_file
    fill_with_data new_info rename_node name
renamed_on_device = refl

no_directory :
    (is_dir_request ascii_upper 1 device ((1, tt) ∷ []) no_content no_push other_path moved.0).1
    ≡ false
unfolding relocate must_move different_loop same_name path_on_layer layers left_sub_path full_path
    parse_path do_tree_access tree_access find_key user_request rename_request rename_object
    check_if_exists existence file_path_to_node content_by_name create_file_with_stream
    create_folder at_node at_child find_child add_child create_new_folder create_new_file
    fill_with_data new_info rename_node name
no_directory = refl

find-move_or_rename_inode_example :
    (c' : FileCache) × (move_or_rename_inode ascii_upper 1 device
        ((1, tt) ∷ [])
        no_content
        no_push
        photo_path
        other_path
        two_files
        with_photo
      ≡ some (
        (
          c',
          (if moved.1
              then (is_dir_request ascii_upper 1 device
                  ((1, tt) ∷ [])
                  no_content
                  no_push
                  other_path
                  moved.0).0
              else moved.0),
        ),
        moved.1,
      ))
    × ((j : Key)
        → find_entry j c'.cachemap ≡ (
            if same_key other_key j
            then (if moved.1
                then renamed other_path (find_entry photo_key two_files.cachemap)
                else none)
            else if moved.1 && same_key photo_key j
            then none
            else find_entry j two_files.cachemap))
find-move_or_rename_inode_example =
    find-move_or_rename_inode ascii_upper 1 device ((1, tt) ∷ []) no_content no_push photo_path
      other_path two_files with_photo two_files-Distinct (unfold same_key lt_key lt_path in refl)
      no_directory
