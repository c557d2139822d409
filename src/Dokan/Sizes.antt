-- ===== src/Dokan/Sizes.antt =====
-- dokanconnect/DokanDriveWrapper.cpp: what the callbacks tell Windows about files: DokanFindFiles,
-- DokanFindFilesPattern and DokanObjectInfo, with their function objects. The size of a local copy
-- is read in the state in which the request was answered.
pub mod Agree
use mtpmount.Base.{
  ℕ, ◌-◌, Bool, true, false, ◌&&◌, Option, none, some, List, [], ◌∷◌, map, take, ◌==◌,
  if◌then◌else◌,
}
use mtpmount.Base.Text.{Text}
use mtpmount.Path.{FsPath}
use mtpmount.Words.{FileTime, split_long_integer, to_dword}
use mtpmount.Dokan.{
  Services, NodeView, Wrapper, Status, success, unsuccessful, object_path_not_found,
}
use mtpmount.Dokan.Create.{check_dir}

abbrev pub file_attribute_directory : ℕ
file_attribute_directory = 16

abbrev pub file_attribute_normal : ℕ
file_attribute_normal = 128

-- `WIN32_FIND_DATAW`, what is set of it.
pub record FindData : Type 0 where
  pub file_attributes : ℕ
  pub file_name : Text
  pub last_write_time : FileTime
  pub creation_time : FileTime
  pub last_access_time : FileTime
  pub file_size_low : ℕ
  pub file_size_high : ℕ

-- `BY_HANDLE_FILE_INFORMATION`
pub record FileInformation : Type 0 where
  pub file_attributes : ℕ
  pub last_write_time : FileTime
  pub creation_time : FileTime
  pub last_access_time : FileTime
  pub volume_serial_number : ℕ
  pub file_size_low : ℕ
  pub file_size_high : ℕ
  pub number_of_links : ℕ
  pub file_index_low : ℕ
  pub file_index_high : ℕ

-- `ForwardToDokanFillFindData`, for the size of the local copy. The name is cut to 259 characters.
unfoldable pub fill_find_data : ℕ → NodeView → FindData
fill_find_data cached node =
    let size = if cached == 0 then node.payload_size else cached in
    let halves = split_long_integer size in
    record {
      file_attributes = if node.is_directory then file_attribute_directory else 0;
      file_name = take 259 node.node_name;
      last_write_time = node.modification_time;
      creation_time = node.modification_time;
      last_access_time = node.modification_time;
      file_size_low = to_dword halves.0;
      file_size_high = to_dword halves.1;
    }

-- `ForwardToObjectInfo`: the index in place of the size is set for a directory.
unfoldable pub fill_object_info : NodeView → FileInformation → FileInformation
fill_object_info node info =
    let t = node.modification_time in
    let timed = record info { last_write_time = t; creation_time = t; last_access_time = t } in
    let halves = split_long_integer node.payload_size in
    if node.is_directory
    then record timed {
      file_attributes = file_attribute_directory;
      file_size_high = 0;
      file_index_low = 0;
    }
    else if info.file_size_low == 0 && info.file_size_high == 0
    then record timed {
      file_attributes = file_attribute_normal;
      file_size_low = to_dword halves.0;
      file_size_high = to_dword halves.1;
    }
    else record timed { file_attributes = file_attribute_normal }

-- What DokanObjectInfo sets before its request, of the size of the local copy.
unfoldable pub begin_object_info : ℕ → FileInformation → FileInformation
begin_object_info cached buffer =
    let halves = split_long_integer cached in
    record buffer {
      number_of_links = 1;
      file_index_high = 0;
      file_index_low = 0;
      volume_serial_number = 2804;
      file_size_low = to_dword halves.0;
      file_size_high = to_dword halves.1;
    }

filter_nodes : (Text → Bool) → List NodeView → List NodeView
filter_nodes p [] = []
filter_nodes p (node ∷ nodes) =
    let rest = filter_nodes p nodes in if p node.node_name then node ∷ rest else rest

module _ {W : Type 0} (sv : Services W) (d : Wrapper) where
  unfoldable pub find_data : W → NodeView → FindData
  find_data w node =
      fill_find_data (sv.get_file_size_of_cached_file node.node_path d.drive_id w) node

module _ {W : Type 0} (sv : Services W) (d : Wrapper) (path : FsPath) where
  listed_data : (Text → Bool) → W × Option (List NodeView) → W × List FindData × Status
  unfolding find_data filter_nodes
  listed_data p (w, none) = (w, [], unsuccessful)
  listed_data p (w, some nodes) = (w, map (find_data sv d w) (filter_nodes p nodes), success)

  find_matching : (Text → Bool) → W → W × List FindData × Status
  unfolding listed_data
  find_matching p w =
      let dir = check_dir sv d path w in
      let listed = listed_data p (sv.list_dir d.drive_id path dir.0) in
      if dir.1 then listed else (dir.0, [], object_path_not_found)

  -- `DokanFindFiles`
  unfoldable pub find_files : W → W × List FindData × Status
  unfolding find_matching
  find_files w = find_matching (λ name. true) w

  -- `DokanFindFilesPattern`
  unfoldable pub find_files_pattern : Text → W → W × List FindData × Status
  unfolding find_matching
  find_files_pattern pattern w = find_matching (sv.name_in_expression pattern) w

  inspected : FileInformation → W × Option NodeView → W × FileInformation × Status
  inspected info (w, none) = (w, info, unsuccessful)
  inspected info (w, some node) = (w, fill_object_info node info, success)

  -- `DokanObjectInfo`
  unfoldable pub object_info : FileInformation → W → W × FileInformation × Status
  unfolding inspected
  object_info buffer w =
      inspected (begin_object_info (sv.get_file_size_of_cached_file path d.drive_id w) buffer)
        (sv.inspect d.drive_id path w)
