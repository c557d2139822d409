-- ===== src/Cache/Sync/MustMove.antt =====
-- mtpcache/FileCache.cpp: when `_mustMove` asks for a move.
use mtpmount.Base.{ℕ, zero, suc, ◌+◌, ◌-◌, false, [], ◌∷◌, ◌≡◌, ◌↔◌, refl, arith, length}
use mtpmount.Base.Int.{pos, sub_ℕ-eq-pos}
use mtpmount.Base.Text.{eq_text_iff}
use mtpmount.Path.{FsPath, same_name, path_on_layer, layers, left_sub_path, parent_path}
use mtpmount.Path.Order.{upper_cases}
use mtpmount.Cache.Sync.{different_loop, must_move}

module _ (towupper : ℕ → ℕ) where
  different_loop_iff :
      (p q : FsPath) (i rounds : ℕ)
      → (different_loop towupper p q i rounds ≡ false)
        ↔ (upper_cases (layers towupper p i rounds) ≡ upper_cases (layers towupper q i rounds))
  unfolding different_loop layers same_name
  different_loop_iff p q i zero = (λ _. refl, λ _. refl)
  different_loop_iff p q i (suc rounds) = ground (
    arith,
    eq_text_iff (path_on_layer towupper p (pos i)).upper_case
        (path_on_layer towupper q (pos i)).upper_case,
    different_loop_iff p q (i + 1) rounds,
  )

  parent_path-layers : (p : FsPath) → parent_path towupper p ≡ layers towupper p 0 (length p - 1)
  unfolding left_sub_path layers
  parent_path-layers [] = refl
  parent_path-layers (n ∷ []) = refl
  parent_path-layers (n ∷ m ∷ p) =
      rw (sub_ℕ-eq-pos (suc (suc (length p))) 2 (length p) (omega arith)) (ground arith)

  -- A move is not needed exactly if the paths have as many components and, without case, one
  -- directory.
  pub must_move_iff :
      (p q : FsPath)
      → (must_move towupper p q ≡ false) ↔ (
          (length p ≡ length q)
          × (upper_cases (parent_path towupper p) ≡ upper_cases (parent_path towupper q)))
  unfolding must_move
  must_move_iff p q =
      rw (parent_path-layers p, parent_path-layers q)
        (ground (arith, different_loop_iff p q 0 (length p - 1)))
