-- ===== src/Fs.antt =====
-- mtpaccess/AbstractFileSystem.h, TestFileSystem.h and TestFileSystem.cpp: the tree of nodes of a
-- drive, as the file system of the tests keeps it in memory. A node is a value in the tree of its
-- drive; a pointer to it is a path. `_allowedToDelete` and the unique id have no use there.
pub mod Blocks
pub mod Lookup
use mtpmount.Base.{
  ℕ, zero, suc, ◌+◌, ◌-◌, ◌/◌, ◌%◌, ◌≡◌, Bool, true, false, Option, none, some, List, [], ◌∷◌, ◌++◌,
  if◌then◌else◌, length, ◌>>=◌,
}
use mtpmount.Base.Text.{Text, eq_text}
use mtpmount.Words.{FileTime}
use mtpmount.Path.{Name, FsPath, name, same_name}

-- `TestFsFile::blocks`: the size of a block is the length of its data.
abbrev pub Blocks : Type 0
Blocks = List Text

abbrev pub block_size : ℕ
block_size = 512

-- `stream.get()` gives EOF behind the end of the stream, which is the byte 255 as a `char`.
read_bytes : ℕ → Text → Text × Text
read_bytes zero stream = ([], stream)
read_bytes (suc n) [] = let (bytes, rest) = read_bytes n [] in (255 ∷ bytes, rest)
read_bytes (suc n) (c ∷ stream) = let (bytes, rest) = read_bytes n stream in (c ∷ bytes, rest)

read_blocks : ℕ → Text → Blocks × Text
unfolding read_bytes
read_blocks zero stream = ([], stream)
read_blocks (suc n) stream =
    let (block, rest) = read_bytes block_size stream in
    let (blocks, rest') = read_blocks n rest in (block ∷ blocks, rest')

-- `fillWithData`: full blocks, and the last one for what is left.
unfoldable pub fill_with_data : Text → ℕ → Blocks
unfolding read_blocks
fill_with_data stream size =
    let (blocks, rest) = read_blocks (size / block_size) stream in
    blocks ++ (read_bytes (size % block_size) rest).0 ∷ []

-- `contentToStream` of a file
unfoldable pub content_to_stream : Blocks → Text
content_to_stream [] = []
content_to_stream (block ∷ blocks) = block ++ content_to_stream blocks

-- `getPayloadSize` of a file
unfoldable pub payload_size : Blocks → ℕ
payload_size [] = 0
payload_size (block ∷ blocks) = length block + payload_size blocks

-- What `AbstractFsNode` keeps of every node.
pub record Info : Type 0 where
  pub friendlyname : Text
  pub time_created : FileTime
  pub time_modified : FileTime
  pub time_authored : FileTime

abbrev pub no_time : FileTime
no_time = record { low_date_time = 0; high_date_time = 0 }

-- The constructor of `AbstractFsNode`.
unfoldable pub new_info : Text → Info
new_info friendlyname = record {
  friendlyname = friendlyname;
  time_created = no_time;
  time_modified = no_time;
  time_authored = no_time;
}

-- `TestFsFile` and `TestFsDirectory`; `Children` is the vector of a directory.
mutual
  pub data Node : Type 0 where
    file : Info → Blocks → Node
    directory : Info → Children → Node

  pub data Children : Type 0 where
    nil : Children
    cons : Node → Children → Children

abbrev pub info : Node → Info
info (file i blocks) = i
info (directory i children) = i

abbrev pub is_directory : Node → Bool
is_directory (file i blocks) = false
is_directory (directory i children) = true

-- `push_back`
unfoldable pub add_child : Children → Node → Children
add_child nil c = cons c nil
add_child (cons d children) c = cons d (add_child children c)

module _ (towupper : ℕ → ℕ) where
  -- The test of `TestFsDirectory::getContentByName`.
  abbrev pub has_name : Node → Name → Bool
  has_name c n = same_name (name towupper (info c).friendlyname) n

  unfoldable pub find_child : Children → Name → Option Node
  find_child nil n = none
  find_child (cons c children) n = if has_name c n then some c else find_child children n

  -- `getContentByName` of any node
  unfoldable pub content_by_name : Node → Name → Option Node
  content_by_name (file i blocks) n = none
  content_by_name (directory i children) n = find_child children n

  -- `createNewFolder` of a directory
  unfoldable pub create_new_folder : Name → Children → Children × Bool
  create_new_folder n children = elim (find_child children n) [
    | some c ↦ (children, false)
    | none ↦ (add_child children (directory (new_info n.actual_case) nil), true)
  ]

  -- `createNewFileWithStream` of a directory
  unfoldable pub create_new_file :
      Name → Text → ℕ → FileTime → FileTime → FileTime → Children → Children × Bool
  create_new_file n stream size modified created authored children = elim (find_child children n) [
    | some c ↦ (children, false)
    | none ↦ (
      add_child children (
          file
            (record {
              friendlyname = n.actual_case;
              time_created = created;
              time_modified = modified;
              time_authored = authored;
            })
            (fill_with_data stream size)),
      true,
    )
  ]

  -- `deleteContentByName`: the first child of exactly this name.
  unfoldable pub delete_content_by_name : Text → Children → Children × Bool
  delete_content_by_name t nil = (nil, false)
  delete_content_by_name t (cons c children) =
      if eq_text (info c).friendlyname t
      then (children, true)
      else let (rest, done) = delete_content_by_name t children in (cons c rest, done)

  -- An operation on the child that `find_child` finds; there is none: it fails.
  unfoldable pub at_child : Name → (Node → Node × Bool) → Children → Children × Bool
  at_child n act nil = (nil, false)
  at_child n act (cons c children) =
      if has_name c n
      then (let (c', done) = act c in (cons c' children, done))
      else let (rest, done) = at_child n act children in (cons c rest, done)

  -- An operation on the node at a path.
  unfoldable pub at_node : FsPath → (Node → Node × Bool) → Node → Node × Bool
  at_node [] act node = act node
  at_node (n ∷ path) act (file i blocks) = (file i blocks, false)
  at_node (n ∷ path) act (directory i children) =
      let (children', done) = at_child n (at_node path act) children in
      (directory i children', done)

  -- A virtual method that fails on files.
  abbrev pub on_children : (Children → Children × Bool) → Node → Node × Bool
  on_children act (file i blocks) = (file i blocks, false)
  on_children act (directory i children) =
      let (children', done) = act children in (directory i children', done)

-- `TestFsNode::rename`
unfoldable pub rename_node : Text → Node → Node × Bool
rename_node t (file i blocks) = (file (record i { friendlyname = t }) blocks, true)
rename_node t (directory i children) = (directory (record i { friendlyname = t }) children, true)
