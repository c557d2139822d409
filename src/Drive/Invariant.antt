-- ===== src/Drive/Invariant.antt =====
-- mtpaccess/AbstractConnection.cpp: trees in which no directory has two nodes of one name.
use mtpmount.Base.{
  ℕ, ◌≡◌, refl, Bool, none, some, [], ◌∷◌, arith, Option-cases, Bool-cases, inl, inr, subst,
}
use mtpmount.Base.Text.{Text}
use mtpmount.Path.{FsPath, name, same_name}
use mtpmount.Fs.{
  Node, file, directory, Children, nil, cons, Info, info, find_child, content_by_name, at_node,
  on_children, delete_content_by_name, add_child, has_name,
}
use mtpmount.Fs.Lookup.{
  HasDistinctNames, HasDistinctNames-add_child, HasDistinctNames-at_child, HasDistinctNames-delete,
  find_child-at_child, find_child-add_child, find_child-delete_le,
}
use mtpmount.Drive.{file_path_to_node}
use mtpmount.Drive.Paths.{KeepsName, at_node-KeepsName}

module _ (towupper : ℕ → ℕ) where
  -- At whatever path a directory is found, its children have distinct names.
  abbrev pub IsTree : Node → Type 0
  IsTree root =
      (path : FsPath) (i : Info) (children : Children)
      → file_path_to_node towupper path root ≡ some (directory i children)
      → HasDistinctNames towupper children

  pub at_node-IsTree :
      (act : Node → Node × Bool)
      → KeepsName act
      → ((c : Node) → IsTree c → IsTree (act c).0)
      → (p : FsPath) (root : Node) → IsTree root
      → IsTree (at_node towupper p act root).0
  unfolding at_node file_path_to_node content_by_name
  at_node-IsTree act keeps tree [] root t path j cs h = tree root t path j cs h
  at_node-IsTree act keeps tree (n ∷ p) (file i blocks) t path j cs h = t path j cs h
  at_node-IsTree act keeps tree (n ∷ p) (directory i children) t [] j cs h =
      subst (HasDistinctNames towupper) (ground arith) (
        HasDistinctNames-at_child towupper n (at_node towupper p act)
          (at_node-KeepsName towupper act keeps p) children (t [] i children refl))
  at_node-IsTree act keeps tree (n ∷ p) (directory i children) t (m ∷ rest) j cs h =
      let seen =
        find_child-at_child towupper n (at_node towupper p act)
          (at_node-KeepsName towupper act keeps p) children m in
      elim (Option-cases (find_child towupper children m)) [
        | inl e ↦ absurd (cc (rw (seen, e) at h))
        | inr (c, e) ↦
            let below : IsTree c = λ q k ds found. t (m ∷ q) k ds (rw e found) in
            elim (Bool-cases (same_name n m)) [
              | inl same ↦
                  at_node-IsTree act keeps tree p c below rest j cs (rw (seen, e, same) at h)
              | inr other ↦ below rest j cs (rw (seen, e, other) at h)
            ]
      ]

  -- A node with nothing below it.
  abbrev pub IsLeaf : Node → Type 0
  IsLeaf (file i blocks) = Unit
  IsLeaf (directory i nil) = Unit
  IsLeaf (directory i (cons c children)) = ⊥

  pub IsLeaf-IsTree : (c : Node) → IsLeaf c → IsTree c
  unfolding file_path_to_node content_by_name find_child
  IsLeaf-IsTree (file i blocks) l [] j cs h = cc
  IsLeaf-IsTree (file i blocks) l (m ∷ rest) j cs h = cc
  IsLeaf-IsTree (directory i nil) l [] j cs h =
      subst (HasDistinctNames towupper) (let e : nil ≡ cs = cc in e) tt
  IsLeaf-IsTree (directory i nil) l (m ∷ rest) j cs h = cc
  IsLeaf-IsTree (directory i (cons c children)) l path j cs h = absurd l

  pub add_child-IsTree :
      (i : Info) (children : Children) (c : Node)
      → find_child towupper children (name towupper (info c).friendlyname) ≡ none
      → IsLeaf c
      → IsTree (directory i children)
      → IsTree (directory i (add_child children c))
  unfolding file_path_to_node content_by_name
  add_child-IsTree i children c free leaf t [] j cs h =
      subst (HasDistinctNames towupper) (let e : add_child children c ≡ cs = cc in e)
        (HasDistinctNames-add_child towupper children c free (t [] i children refl))
  add_child-IsTree i children c free leaf t (m ∷ rest) j cs h =
      elim (Option-cases (find_child towupper children m)) [
        | inr (d, e) ↦
            t (m ∷ rest) j cs (rw e (rw (find_child-add_child towupper children c m, e) at h))
        | inl e ↦ elim (Bool-cases (has_name towupper c m)) [
          | inl same ↦
              IsLeaf-IsTree c leaf rest j cs
                (rw (find_child-add_child towupper children c m, e, same) at h)
          | inr other ↦ absurd (cc (rw (find_child-add_child towupper children c m, e, other) at h))
        ]
      ]

  pub delete-IsTree :
      (t : Text) (c : Node)
      → IsTree c
      → IsTree (on_children towupper (delete_content_by_name towupper t) c).0
  unfolding file_path_to_node content_by_name
  delete-IsTree t (file i blocks) tree path j cs h = tree path j cs h
  delete-IsTree t (directory i children) tree [] j cs h =
      subst (HasDistinctNames towupper)
        (let e : (delete_content_by_name towupper t children).0 ≡ cs = ground arith in e)
        (HasDistinctNames-delete towupper t children (tree [] i children refl))
  delete-IsTree t (directory i children) tree (m ∷ rest) j cs h =
      elim (find_child-delete_le towupper t children m (tree [] i children refl)) [
        | inl e ↦ absurd (cc (rw e at h))
        | inr e ↦ tree (m ∷ rest) j cs (rw e at h)
      ]
