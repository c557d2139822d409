-- ===== src/Drive/Addition.antt =====
-- mtpaccess/AbstractConnection.cpp: what `createFileWithStream` and `createFolder` do to a tree.
use mtpmount.Base.{ℕ, ◌≡◌, ◌⊎◌, refl, Bool, true, false, none, arith, Option-cases, inl, inr}
use mtpmount.Base.Text.{Text}
use mtpmount.Words.{FileTime}
use mtpmount.Path.{FsPath, name}
use mtpmount.Fs.{
  Node, file, directory, Children, info, find_child, at_node, on_children, create_new_file,
  create_new_folder, add_child, new_info,
}
use mtpmount.Drive.{create_file_with_stream, create_folder}
use mtpmount.Drive.Paths.{
  Extends, Extends-refl, add_child-Extends, at_node-Extends, at_node-unchanged,
  on_children-KeepsName,
}
use mtpmount.Drive.Invariant.{IsTree, IsLeaf, at_node-IsTree, add_child-IsTree}
use mtpmount.Drive.Create.{create_new_file_free, create_new_folder_free}

-- A new tree has all nodes of the old one, is well formed, and is the old one unless the operation
-- succeeds.
pub record IsAddition (towupper : ℕ → ℕ) (root : Node) (result : Node × Bool) : Type 0 where
  pub extends : Extends towupper root result.0
  pub tree : IsTree towupper result.0
  pub unchanged : (result.1 ≡ true) ⊎ (result.0 ≡ root)

module _ (towupper : ℕ → ℕ) where
  -- What an operation on the children keeps, if it only ever adds a leaf.
  pub data Adds (f : Children → Children × Bool) (cs : Children) : Type 0 where
    adds_none : f cs ≡ (cs, false) → Adds f cs
    adds_leaf :
        (c : Node)
        → f cs ≡ (add_child cs c, true)
        → find_child towupper cs (name towupper (info c).friendlyname) ≡ none
        → IsLeaf towupper c
        → Adds f cs

  create_new_file-Adds :
      (filename source : Text) (size : ℕ) (m c a : FileTime) (cs : Children)
      → Adds (create_new_file towupper (name towupper filename) source size m c a) cs
  unfolding create_new_file name
  create_new_file-Adds filename source size m c a cs =
      elim (Option-cases (find_child towupper cs (name towupper filename))) [
        | inl free ↦ adds_leaf _ (create_new_file_free towupper _ source size m c a cs free) free tt
        | inr (d, taken) ↦ adds_none (rw (taken, create_new_file))
      ]

  create_new_folder-Adds :
      (folder : Text) (cs : Children) → Adds (create_new_folder towupper (name towupper folder)) cs
  unfolding create_new_folder name new_info
  create_new_folder-Adds folder cs =
      elim (Option-cases (find_child towupper cs (name towupper folder))) [
        | inl free ↦ adds_leaf _ (create_new_folder_free towupper _ cs free) free tt
        | inr (d, taken) ↦ adds_none (rw (taken, create_new_folder))
      ]

  module _ (f : Children → Children × Bool) (adds : (cs : Children) → Adds f cs) where
    Adds-Extends : (c : Node) → Extends towupper c (on_children towupper f c).0
    Adds-Extends (file i blocks) = Extends-refl towupper (file i blocks)
    Adds-Extends (directory i cs) = elim (adds cs) [
      | adds_none e ↦ rw e (Extends-refl towupper (directory i cs))
      | adds_leaf c e free leaf ↦ rw e (add_child-Extends towupper i cs c)
    ]

    Adds-IsTree : (c : Node) → IsTree towupper c → IsTree towupper (on_children towupper f c).0
    Adds-IsTree (file i blocks) t = t
    Adds-IsTree (directory i cs) t = elim (adds cs) [
      | adds_none e ↦ rw e t
      | adds_leaf c e free leaf ↦ rw e (add_child-IsTree towupper i cs c free leaf t)
    ]

    Adds-unchanged :
        (c : Node) → (on_children towupper f c).1 ≡ false → (on_children towupper f c).0 ≡ c
    Adds-unchanged (file i blocks) h = refl
    Adds-unchanged (directory i cs) h = elim (adds cs) [
      | adds_none e ↦ rw e
      | adds_leaf c e free leaf ↦ absurd (cc (rw e at h))
    ]

    addition :
        (base : FsPath) (root : Node)
        → IsTree towupper root
        → IsAddition towupper root (at_node towupper base (on_children towupper f) root)
    addition base root t = record {
      extends =
          at_node-Extends towupper _ (on_children-KeepsName towupper f) Adds-Extends base root;
      tree = at_node-IsTree towupper _ (on_children-KeepsName towupper f) Adds-IsTree base root t;
      unchanged =
          ground
            (arith, at_node-unchanged towupper (on_children towupper f) Adds-unchanged base root);
    }

  -- Creating a file in a tree in which no directory has two nodes of one name, whatever its path:
  -- every file and directory that was there is still there, files with their content; no directory
  -- has two nodes of one name; and the creation succeeds or the tree is the old one.
  pub create_file-IsAddition :
      (now : FileTime) (base : FsPath) (filename source : Text) (size : ℕ) (root : Node)
      → IsTree towupper root
      → IsAddition towupper root
          (create_file_with_stream towupper now base filename source size root)
  unfolding create_file_with_stream
  create_file-IsAddition now base filename source size root t =
      addition _ (create_new_file-Adds filename source size now now now) base root t

  -- Creating a folder in a tree in which no directory has two nodes of one name, whatever its path:
  -- every file and directory that was there is still there, files with their content; no directory
  -- has two nodes of one name; and the creation succeeds or the tree is the old one.
  pub create_folder-IsAddition :
      (base : FsPath) (folder : Text) (root : Node)
      → IsTree towupper root
      → IsAddition towupper root (create_folder towupper base folder root)
  unfolding create_folder
  create_folder-IsAddition base folder root t =
      addition _ (create_new_folder-Adds folder) base root t
