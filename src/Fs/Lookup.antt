-- ===== src/Fs/Lookup.antt =====
-- mtpaccess/TestFileSystem.cpp: the children of a directory: looking up, adding and deleting.
use mtpmount.Base.{
  ℕ, ◌≡◌, ◌⊎◌, inl, refl, sym, Bool, true, false, none, some, arith, if◌then◌else◌, map,
}
use mtpmount.Base.Text.{Text, eq_text_iff}
use mtpmount.Path.{Name, name, same_name}
use mtpmount.Fs.{
  Node, Children, nil, cons, info, add_child, has_name, find_child, delete_content_by_name,
  at_child,
}

-- The name of a component fits its text, as the constructor leaves it.
abbrev pub Fits : (ℕ → ℕ) → Name → Type 0
Fits towupper n = n.upper_case ≡ map towupper n.actual_case

module _ (towupper : ℕ → ℕ) where
  -- No two children of one name, compared without case.
  abbrev pub HasDistinctNames : Children → Type 0
  HasDistinctNames nil = Unit
  HasDistinctNames (cons c children) =
      (find_child towupper children (name towupper (info c).friendlyname) ≡ none)
      × HasDistinctNames children

  -- A new child is found under its name, and nothing else changes.
  pub find_child-add_child :
      (children : Children) (c : Node) (n : Name)
      → find_child towupper (add_child children c) n ≡ (elim (find_child towupper children n) [
        | some d ↦ some d
        | none ↦ if has_name towupper c n then some c else none
      ])
  unfolding find_child add_child
  find_child-add_child nil c n = ground arith
  find_child-add_child (cons d children) c n = ground (arith, find_child-add_child children c n)

  -- The child that is found has the name that was asked for.
  pub find_child-has_name :
      (children : Children) (n : Name) (c : Node)
      → find_child towupper children n ≡ some c
      → has_name towupper c n ≡ true
  unfolding find_child
  find_child-has_name nil n c h = cc
  find_child-has_name (cons d children) n c h = ground (arith, find_child-has_name children n c)

  find_child-same :
      (children : Children) (n m : Name)
      → n.upper_case ≡ m.upper_case
      → find_child towupper children n ≡ find_child towupper children m
  unfolding find_child same_name
  find_child-same nil n m h = refl
  find_child-same (cons d children) n m h = ground (arith, find_child-same children n m h)

  pub HasDistinctNames-add_child :
      (children : Children) (c : Node)
      → find_child towupper children (name towupper (info c).friendlyname) ≡ none
      → HasDistinctNames children
      → HasDistinctNames (add_child children c)
  unfolding find_child add_child same_name
  HasDistinctNames-add_child nil c h d = (refl, tt)
  HasDistinctNames-add_child (cons b children) c h d = (
    ground (
      arith,
      find_child-add_child children c (name towupper (info b).friendlyname),
      eq_text_iff (name towupper (info c).friendlyname).upper_case
          (name towupper (info b).friendlyname).upper_case,
      eq_text_iff (name towupper (info b).friendlyname).upper_case
          (name towupper (info c).friendlyname).upper_case,
    ),
    HasDistinctNames-add_child children c (ground arith) d.1,
  )

  -- The child that was found is gone; the others are still found.
  pub find_child-delete :
      (children : Children) (n m : Name) (c : Node)
      → HasDistinctNames children
      → find_child towupper children n ≡ some c
      → (delete_content_by_name towupper (info c).friendlyname children).1 ≡ true
        × (find_child towupper (delete_content_by_name towupper (info c).friendlyname children).0 m
            ≡ (if same_name n m then none else find_child towupper children m))
  unfolding find_child delete_content_by_name same_name
  find_child-delete nil n m c d h = cc
  find_child-delete (cons b children) n m c d h = ground (
    arith,
    eq_text_iff (info b).friendlyname (info c).friendlyname,
    eq_text_iff (upper b) n.upper_case,
    eq_text_iff (upper b) m.upper_case,
    eq_text_iff (upper c) n.upper_case,
    eq_text_iff n.upper_case m.upper_case,
    find_child-same children m (name towupper (info b).friendlyname),
    find_child-has_name children n c,
    find_child-delete children n m c d.1,
  )
    where
      upper : Node → Text
      upper a = (name towupper (info a).friendlyname).upper_case

  -- What `at_child` does to one child, and its result.
  module _ (n : Name) (act : Node → Node × Bool) where
    pub find_child-at_child :
        ((c : Node) → (info (act c).0).friendlyname ≡ (info c).friendlyname)
        → (children : Children) (m : Name)
        → find_child towupper (at_child towupper n act children).0 m
          ≡ (elim (find_child towupper children m) [
            | none ↦ none
            | some c ↦ if same_name n m then some (act c).0 else some c
          ])
    unfolding find_child at_child same_name
    find_child-at_child keeps nil m = refl
    find_child-at_child keeps (cons b children) m = ground (
      arith,
      keeps b,
      eq_text_iff (name towupper (info b).friendlyname).upper_case n.upper_case,
      eq_text_iff (name towupper (info b).friendlyname).upper_case m.upper_case,
      eq_text_iff n.upper_case m.upper_case,
      find_child-at_child keeps children m,
    )

    pub at_child-result :
        (children : Children)
        → (at_child towupper n act children).1
          ≡ (elim (find_child towupper children n) [ none ↦ false | some c ↦ (act c).1 ])
    unfolding find_child at_child
    at_child-result nil = refl
    at_child-result (cons b children) = ground (arith, at_child-result children)

    pub HasDistinctNames-at_child :
        ((c : Node) → (info (act c).0).friendlyname ≡ (info c).friendlyname)
        → (children : Children) → HasDistinctNames children
        → HasDistinctNames (at_child towupper n act children).0
    unfolding at_child
    HasDistinctNames-at_child keeps nil d = tt
    HasDistinctNames-at_child keeps (cons b children) d = ground (
      arith,
      keeps b,
      HasDistinctNames-at_child keeps children d.1,
      find_child-at_child keeps children (name towupper (info b).friendlyname),
    )

  -- What is still found after a deletion was there before.
  pub find_child-delete_le :
      (t : Text) (children : Children) (m : Name)
      → HasDistinctNames children
      → (find_child towupper (delete_content_by_name towupper t children).0 m ≡ none)
        ⊎ (find_child towupper (delete_content_by_name towupper t children).0 m
            ≡ find_child towupper children m)
  unfolding find_child delete_content_by_name same_name
  find_child-delete_le t nil m d = inl refl
  find_child-delete_le t (cons b children) m d = ground (
    arith,
    eq_text_iff (name towupper (info b).friendlyname).upper_case m.upper_case,
    find_child-same children m (name towupper (info b).friendlyname),
    find_child-delete_le t children m d.1,
  )

  pub HasDistinctNames-delete :
      (t : Text) (children : Children)
      → HasDistinctNames children
      → HasDistinctNames (delete_content_by_name towupper t children).0
  unfolding delete_content_by_name
  HasDistinctNames-delete t nil d = tt
  HasDistinctNames-delete t (cons b children) d = ground (
    arith,
    HasDistinctNames-delete t children d.1,
    find_child-delete_le t children (name towupper (info b).friendlyname) d.1,
  )

  pub find_child-Fits :
      (children : Children) (n : Name)
      → Fits towupper n
      → find_child towupper children (name towupper n.actual_case) ≡ find_child towupper children n
  unfolding name
  find_child-Fits children n h = find_child-same children (name towupper n.actual_case) n (sym h)

  pub at_child-unchanged :
      (n : Name) (act : Node → Node × Bool)
      → ((c : Node) → (act c).1 ≡ false → (act c).0 ≡ c)
      → (children : Children) → (at_child towupper n act children).1 ≡ false
      → (at_child towupper n act children).0 ≡ children
  unfolding at_child
  at_child-unchanged n act same nil h = refl
  at_child-unchanged n act same (cons b children) h =
      ground (arith, same b, at_child-unchanged n act same children)
