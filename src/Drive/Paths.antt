-- ===== src/Drive/Paths.antt =====
-- mtpaccess/AbstractConnection.cpp: how an operation on the node at a path is seen through other paths.
use mtpmount.Base.{
  ℕ, ◌≡◌, ◌≢◌, inl, inr, refl, sym, ap, ◌∙◌, Bool, true, false, none, some, some-injective, subst,
  [], ◌∷◌, ◌++◌, arith, ◌>>=◌, Option-cases, >>=-eq-some, Bool-cases,
}
use mtpmount.Base.Text.{eq_text_iff}
use mtpmount.Path.{Name, FsPath, same_name, parent_path, last_name}
use mtpmount.Path.SubPath.{parent-append-last}
use mtpmount.Fs.{
  Node, file, directory, Children, Info, info, is_directory, find_child, content_by_name, at_node,
  add_child, on_children, has_name,
}
use mtpmount.Fs.Lookup.{
  at_child-unchanged, find_child-add_child, find_child-at_child, at_child-result,
}
use mtpmount.Drive.{file_path_to_node}

-- The operation leaves the name of the node alone.
abbrev pub KeepsName : (Node → Node × Bool) → Type 0
KeepsName act = (c : Node) → (info (act c).0).friendlyname ≡ (info c).friendlyname

module _ (towupper : ℕ → ℕ) where
  pub file_path_to_node-append :
      (p q : FsPath) (root : Node)
      → file_path_to_node towupper (p ++ q) root
        ≡ (file_path_to_node towupper p root >>= file_path_to_node towupper q)
  unfolding file_path_to_node
  file_path_to_node-append [] q root = refl
  file_path_to_node-append (n ∷ p) q root = elim (Option-cases (content_by_name towupper root n)) [
    | inl e ↦ rw e
    | inr (c, e) ↦ rw e (file_path_to_node-append p q c)
  ]

  pub at_node-KeepsName :
      (act : Node → Node × Bool) → KeepsName act → (p : FsPath) → KeepsName (at_node towupper p act)
  unfolding at_node
  at_node-KeepsName act keeps [] c = keeps c
  at_node-KeepsName act keeps (n ∷ p) (file i blocks) = refl
  at_node-KeepsName act keeps (n ∷ p) (directory i children) = refl

  module _ (act : Node → Node × Bool) (keeps : KeepsName act) where
    -- Through the path itself the changed node is seen, and the operation gives its result.
    pub file_path_to_node-at_node :
        (p rest : FsPath) (root node : Node)
        → file_path_to_node towupper p root ≡ some node
        → (file_path_to_node towupper (p ++ rest) (at_node towupper p act root).0
            ≡ file_path_to_node towupper rest (act node).0)
          × ((at_node towupper p act root).1 ≡ (act node).1)
    unfolding file_path_to_node content_by_name at_node same_name
    file_path_to_node-at_node [] rest root node h = ground arith
    file_path_to_node-at_node (n ∷ p) rest (file i blocks) node h = cc
    file_path_to_node-at_node (n ∷ p) rest (directory i children) node h =
        elim (Option-cases (find_child towupper children n)) [
          | inl e ↦ ground arith
          | inr (c, e) ↦
              let (seen, result) = file_path_to_node-at_node p rest c node (ground arith) in
              ground (
                arith,
                seen,
                result,
                eq_text_iff n.upper_case n.upper_case,
                find_child-at_child towupper n (at_node towupper p act)
                    (at_node-KeepsName act keeps p) children n,
                at_child-result towupper n (at_node towupper p act) children,
              )
        ]

-- A file stays what it is, a directory stays a directory of its name and times.
abbrev pub Kept : Node → Node → Type 0
Kept (file i blocks) y = y ≡ file i blocks
Kept (directory i children) y = (is_directory y ≡ true) × (info y ≡ i)

Kept-refl : (x : Node) → Kept x x
Kept-refl (file i blocks) = refl
Kept-refl (directory i children) = (refl, refl)

module _ (towupper : ℕ → ℕ) where
  -- All that is found below `a` is found below `b`.
  abbrev pub Extends : Node → Node → Type 0
  Extends a b =
      (rest : FsPath) (x : Node)
      → file_path_to_node towupper rest a ≡ some x
      → (y : Node) × (file_path_to_node towupper rest b ≡ some y) × Kept x y

  pub Extends-refl : (a : Node) → Extends a a
  Extends-refl a rest x h = (x, h, Kept-refl x)

  pub at_node-Extends :
      (act : Node → Node × Bool)
      → KeepsName act
      → ((c : Node) → Extends c (act c).0)
      → (p : FsPath) (root : Node) → Extends root (at_node towupper p act root).0
  unfolding at_node file_path_to_node content_by_name
  at_node-Extends act keeps extends [] root rest x h = extends root rest x h
  at_node-Extends act keeps extends (n ∷ p) (file i blocks) rest x h =
      Extends-refl (file i blocks) rest x h
  at_node-Extends act keeps extends (n ∷ p) (directory i children) [] x h =
      let after = (at_node towupper (n ∷ p) act (directory i children)).0 in
      (after, refl, subst (λ y. Kept y after) (some-injective _ _ h) (refl, refl))
  at_node-Extends act keeps extends (n ∷ p) (directory i children) (m ∷ rest) x h =
      let seen =
        find_child-at_child towupper n (at_node towupper p act)
          (at_node-KeepsName towupper act keeps p) children m in
      elim (Option-cases (find_child towupper children m)) [
        | inl e ↦ absurd (cc (rw e at h))
        | inr (c, e) ↦ elim (Bool-cases (same_name n m)) [
          | inl same ↦ rw (seen, e, same) (at_node-Extends act keeps extends p c rest x (rw e at h))
          | inr other ↦ rw (seen, e, other) (x, (rw e at h), Kept-refl x)
        ]
      ]

  -- A new child hides nothing.
  pub add_child-Extends :
      (i : Info) (children : Children) (c : Node)
      → Extends (directory i children) (directory i (add_child children c))
  unfolding file_path_to_node content_by_name
  add_child-Extends i children c [] x h = (
    directory i (add_child children c),
    refl,
    subst (λ y. Kept y (directory i (add_child children c))) (some-injective _ _ h) (refl, refl),
  )
  add_child-Extends i children c (m ∷ rest) x h =
      elim (Option-cases (find_child towupper children m)) [
        | inl e ↦ absurd (cc (rw e at h))
        | inr (d, e) ↦
            rw (find_child-add_child towupper children c m, e) (x, (rw e at h), Kept-refl x)
      ]

module _ (towupper : ℕ → ℕ) where
  pub on_children-KeepsName : (f : Children → Children × Bool) → KeepsName (on_children towupper f)
  on_children-KeepsName f (file i blocks) = refl
  on_children-KeepsName f (directory i children) = refl

  -- An operation on the children of the directory at a path.
  pub at_directory :
      (f : Children → Children × Bool) (q rest : FsPath) (root : Node) (j : Info) (cs : Children)
      → file_path_to_node towupper q root ≡ some (directory j cs)
      → (file_path_to_node towupper (q ++ rest) (at_node towupper q (on_children towupper f) root).0
          ≡ file_path_to_node towupper rest (directory j (f cs).0))
        × ((at_node towupper q (on_children towupper f) root).1 ≡ (f cs).1)
  at_directory f q rest root j cs h =
      file_path_to_node-at_node towupper (on_children towupper f) (on_children-KeepsName f) q rest
        root (directory j cs) h

  content_by_name-directory :
      (d : Node) (n : Name) (node : Node)
      → content_by_name towupper d n ≡ some node
      → (j : Info) × (cs : Children) × (d ≡ directory j cs) × (find_child towupper cs n ≡ some node)
  unfolding content_by_name
  content_by_name-directory (file i blocks) n node h = cc
  content_by_name-directory (directory j cs) n node h = (j, cs, refl, h)

  in_directory :
      (q : FsPath) (n : Name) (root node : Node)
      → file_path_to_node towupper (q ++ n ∷ []) root ≡ some node
      → (j : Info) × (cs : Children) × (file_path_to_node towupper q root ≡ some (directory j cs))
        × (find_child towupper cs n ≡ some node)
  unfolding file_path_to_node
  in_directory q n root node h =
      let (d, at_q, below) =
        >>=-eq-some (file_path_to_node towupper q root) (file_path_to_node towupper (n ∷ []))
          (sym (file_path_to_node-append towupper q (n ∷ []) root) ∙ h) in
      let (c, found, last) = >>=-eq-some (content_by_name towupper d n) _ below in
      let (j, cs, e, child) = content_by_name-directory d n c found in
      (j, cs, at_q ∙ ap some e, child ∙ last)

  -- A node that is not the root is found in a directory.
  pub parent_directory :
      (path : FsPath) (root node : Node)
      → path ≢ []
      → file_path_to_node towupper path root ≡ some node
      → (j : Info) × (cs : Children) × (file_path_to_node towupper (parent_path towupper path) root
          ≡ some (directory j cs))
        × (find_child towupper cs (last_name towupper path) ≡ some node)
  parent_directory path root node ne h =
      in_directory (parent_path towupper path) (last_name towupper path) root node
        (rw (parent-append-last towupper path ne) h)

  -- What fails changes nothing.
  pub at_node-unchanged :
      (act : Node → Node × Bool)
      → ((c : Node) → (act c).1 ≡ false → (act c).0 ≡ c)
      → (p : FsPath) (root : Node) → (at_node towupper p act root).1 ≡ false
      → (at_node towupper p act root).0 ≡ root
  unfolding at_node
  at_node-unchanged act same [] root h = same root h
  at_node-unchanged act same (n ∷ p) (file i blocks) h = refl
  at_node-unchanged act same (n ∷ p) (directory i children) h = ap (directory i) (
      at_child-unchanged towupper n (at_node towupper p act) (at_node-unchanged act same p) children
        h)

  -- An operation that adds a child to the directory at a path.
  pub at_directory_added :
      (f : Children → Children × Bool) (q : FsPath) (n : Name) (root c : Node) (j : Info)
      (cs : Children)
      → file_path_to_node towupper q root ≡ some (directory j cs)
      → f cs ≡ (add_child cs c, true)
      → find_child towupper cs n ≡ none
      → has_name towupper c n ≡ true
      → ((at_node towupper q (on_children towupper f) root).1 ≡ true)
        × (file_path_to_node towupper
              (q ++ n ∷ [])
              (at_node towupper q (on_children towupper f) root).0
            ≡ some c)
  unfolding file_path_to_node content_by_name
  at_directory_added f q n root c j cs h e free named =
      let (seen, result) = at_directory f q (n ∷ []) root j cs h in
      (
        result ∙ ap (λ r. r.1) e,
        seen ∙ rw (e, find_child-add_child towupper cs c n, free, named) refl,
      )
