-- ===== src/Path/SubPath.antt =====
-- mtpaccess/Utils.cpp: `getLeftSubPath`, `getRightSubPath` and `getPathOnLayer`: taking a path apart.
use mtpmount.Base.{
  ℕ, zero, suc, ◌+◌, ◌-◌, ◌≤◌, [], ◌∷◌, ◌++◌, ◌≡◌, ◌≢◌, refl, ap, ◌∙◌, arith, length, take, drop,
  take-eq_self, drop-eq-nil, drop-cons, take-append-drop, length-drop,
}
use native.Mathlib.Decide.{dec_lt}
use native.Mathlib.Numerals.{add-one}
use mtpmount.Base.Int.{pos, sub_ℕ-eq-pos}
use mtpmount.Path.{
  FsPath, name, path_on_layer, layers, left_sub_path, right_sub_path, parent_path, last_name,
}

module _ (towupper : ℕ → ℕ) where
  -- A loop over layers that are there copies a part of the path.
  layers-take :
      (p : FsPath) (i rounds : ℕ)
      → i + rounds ≤ length p
      → layers towupper p i rounds ≡ take rounds (drop i p)
  unfolding layers path_on_layer
  layers-take p i zero h = refl
  layers-take p i (suc rounds) h = rw (
    add-one i,
    layers-take p (suc i) rounds (omega arith),
    drop-cons (name towupper []) i p (omega arith),
  )

  pub left_sub_path-take : (p : FsPath) (u : ℕ) → left_sub_path towupper p (pos u) ≡ take (u + 1) p
  unfolding left_sub_path
  left_sub_path-take p u = elim (dec_lt u (length p)) [
    | yes h ↦ ground (arith, layers-take p 0 (u + 1))
    | no h ↦ ground (arith, take-eq_self (u + 1) p)
  ]

  pub right_sub_path-drop : (p : FsPath) (f : ℕ) → right_sub_path towupper p (pos f) ≡ drop f p
  unfolding right_sub_path
  right_sub_path-drop p f = elim (dec_lt (length p) f) [
    | yes h ↦
        rw (drop-eq-nil f p (omega arith), right_sub_path)
          (ap (layers towupper p f) (let e : length p - f ≡ 0 = omega arith in e))
    | no h ↦
        layers-take p f (length p - f) (omega arith)
        ∙ take-eq_self _ _ (omega (arith, length-drop f p))
  ]

  parent_path_lem :
      (p : FsPath) (k : ℕ) → length p ≡ suc (suc k) → parent_path towupper p ≡ take (suc k) p
  parent_path_lem p k h =
      rw (sub_ℕ-eq-pos (length p) 2 k (omega arith), left_sub_path-take p k, add-one k)

  last_name_lem : (p : FsPath) (k : ℕ) → length p ≡ suc k → last_name towupper p ∷ [] ≡ drop k p
  unfolding path_on_layer
  last_name_lem p k h = rw (
    sub_ℕ-eq-pos (length p) 1 k (omega arith),
    drop-cons (name towupper []) k p (omega arith),
    drop-eq-nil (suc k) p (omega arith),
  )

  -- The directory of a path and its last component make up the path.
  pub parent-append-last :
      (p : FsPath) → p ≢ [] → parent_path towupper p ++ last_name towupper p ∷ [] ≡ p
  parent-append-last [] h = absurd (h refl)
  parent-append-last (n ∷ []) h = unfold left_sub_path path_on_layer in refl
  parent-append-last (n ∷ m ∷ p) h =
      rw
        (
          parent_path_lem (n ∷ m ∷ p) (length p) refl,
          last_name_lem (n ∷ m ∷ p) (suc (length p)) refl,
        )
        (take-append-drop (suc (length p)) (n ∷ m ∷ p))
