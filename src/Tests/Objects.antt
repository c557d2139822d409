-- ===== src/Tests/Objects.antt =====
-- The callbacks that create, move and describe objects, over the services of the cache and the connection.
use mtpmount.Base.{
  ◌+◌, ◌*◌, ◌^◌, ◌<◌, ◌≡◌, ◌⊎◌, refl, true, false, Bool, Option, none, some, [], ◌∷◌, arith,
  if◌then◌else◌, length, ◌==◌, ◌&&◌,
}
use mtpmount.Base.Text.{Text}
use mtpmount.Base.Assoc.{find_key}
use mtpmount.Path.{FsPath, lt_path, name, path_on_layer, left_sub_path, layers, same_name}
use mtpmount.Fs.{
  Node, at_node, at_child, find_child, add_child, content_by_name, create_new_folder,
  create_new_file, fill_with_data, new_info,
}
use mtpmount.Drive.{
  check_if_exists, existence, file_path_to_node, create_file_with_stream, create_folder,
}
use mtpmount.Cache.{get_file_size_of_cached_file}
use mtpmount.Cache.TableKey.{same_key, lt_key}
use mtpmount.Connection.{user_request}
use mtpmount.Connection.Handlers.{do_tree_access, tree_access, create_unless_there}
use mtpmount.Dokan.{Services, Status, success, unsuccessful, object_name_collision}
use mtpmount.Dokan.Create.{create_file, create_missing, created}
use mtpmount.Dokan.Create.Exists.{Checks, Creates, is_dir, create_file-kind}
use mtpmount.Dokan.Handlers.{move_file}
use mtpmount.Dokan.Handlers.Moving.{move_file-refuses}
use mtpmount.Dokan.Sizes.{find_data, object_info}
use mtpmount.Dokan.Sizes.Agree.{object_info-find_data}
use mtpmount.Dokan.Backend.{World, key, os_file_size, services, do_tree_access_request}
use mtpmount.Dokan.Backend.Existing.{stands, services-Checks, services-Creates}
use mtpmount.Tests.Values.{ascii_upper, dcim, photo_path, other_path, length_mod, noon}
use mtpmount.Tests.Requests.{device}
use mtpmount.Tests.Dokans.{drive, world, sv, picture, buffer}

abbrev kind : FsPath → World Unit Node → Option Bool
kind = stands device 1

sv-Checks : Checks sv 1 kind
sv-Checks =
    services-Checks {F = Unit} ascii_upper device length_mod 3 (λ wait k w. (w, false))
      (λ i p w. (w, none)) (λ i p w. (w, none)) (λ p q i w. (w, false)) (λ p n. true)
      (λ n size w. true) 1

sv-Creates : Creates sv 1 kind other_path
unfolding name path_on_layer
sv-Creates =
    services-Creates {F = Unit} ascii_upper noon (λ p q s. (s, false)) (λ p f s. (s, true))
      other_path (λ e. cc) refl length_mod 3 (λ wait k w. (w, false)) (λ i p w. (w, none))
      (λ i p w. (w, none)) (λ p q i w. (w, false)) (λ p n. true) (λ n size w. true) 1

-- A file is created beside the photo.
abbrev made : World Unit Node × Status × Bool
made = create_file sv drive other_path false 2 world

created_file : made.1 ≡ success
unfolding services do_tree_access_request create_file create_missing created do_tree_access
    tree_access create_unless_there user_request find_key check_if_exists existence
    file_path_to_node content_by_name create_file_with_stream create_folder at_node at_child
    find_child add_child create_new_folder create_new_file fill_with_data new_info name same_name
    path_on_layer left_sub_path layers
created_file = refl

create_file-kind_example :
    (kind other_path world ≡ none → (kind other_path made.0 ≡ some false) × (made.2 ≡ false))
    × ((b : Bool) → kind other_path world ≡ some b → (made.2 ≡ b) × ((b ≡ true) ⊎ (false ≡ false)))
create_file-kind_example =
    create_file-kind sv drive kind sv-Checks other_path sv-Creates false 2 world created_file

-- The photo is moved onto its directory.
dcim_stands : kind (dcim ∷ []) world ≡ some true
unfolding find_key check_if_exists existence file_path_to_node content_by_name
    create_file_with_stream create_folder at_node at_child find_child add_child create_new_folder
    create_new_file fill_with_data new_info name same_name
dcim_stands = refl

move_file-refuses_example :
    let moved = move_file sv drive photo_path (dcim ∷ []) true world in
    (moved.1 ≡ (
      if is_dir (kind (dcim ∷ []) world) && is_dir (kind photo_path world)
      then object_name_collision
      else unsuccessful))
    × ((q : FsPath) → kind q moved.0 ≡ kind q world)
move_file-refuses_example =
    move_file-refuses sv drive kind sv-Checks photo_path (dcim ∷ []) true world
      (λ e. cc (rw dcim_stands at e)) (rw dcim_stands refl)

-- The photo has three bytes in the cache.
short_files : (n s : Text) → world.files n ≡ some s → length s < 2 ^ 64
short_files n s h = ground arith

abbrev finding : Services (World Unit Node)
finding =
    services {F = Unit} ascii_upper device length_mod 3 (λ wait k w. (w, false))
      (λ i p w. (w, none)) (λ i p w. (w, some picture)) (λ p q i w. (w, false)) (λ p n. true)
      (λ n size w. true)

object_info-find_data_example :
    let told = object_info finding drive photo_path buffer world in
    let found = find_data finding drive world picture in
    let size =
      get_file_size_of_cached_file (os_file_size world.files) (key photo_path 1) world.cache in
    (told.2 ≡ success)
    × (told.1.file_size_low ≡ found.file_size_low)
    × (told.1.file_size_high ≡ found.file_size_high)
    × (found.file_size_high * 2 ^ 32 + found.file_size_low
        ≡ (if size == 0 then picture.payload_size else size))
object_info-find_data_example =
    object_info-find_data {F = Unit} ascii_upper device length_mod 3 (λ wait k w. (w, false))
      (λ i p w. (w, none)) (λ i p w. (w, some picture)) (λ p q i w. (w, false)) (λ p n. true)
      (λ n size w. true) drive photo_path buffer picture world world world refl refl
      (unfold same_key lt_key lt_path in refl) refl refl short_files (omega arith)
