-- ===== src/RwSync/Total.antt =====
-- For mtpaccess/Utils.cpp: threads counted by what they do.
use mtpmount.Base.{ℕ, zero, suc, ◌+◌, ◌≤◌, ◌<◌, ◌≡◌, ◌≢◌, refl, arith}
use mtpmount.RwSync.{update}

module _ {ℓ} {A : Type ℓ} (weight : A → ℕ) where
  pub total : ℕ → (ℕ → A) → ℕ
  total zero f = 0
  total (suc n) f = total n f + weight (f n)

  pub total-pointwise :
      (n : ℕ) (f g : ℕ → A) → ((i : ℕ) → weight (f i) ≡ weight (g i)) → total n f ≡ total n g
  unfolding total
  total-pointwise zero f g h = refl
  total-pointwise (suc n) f g h = omega (arith, h n, total-pointwise n f g h)

  pub total-const : (n : ℕ) (a : A) → weight a ≡ 0 → total n (λ _. a) ≡ 0
  unfolding total
  total-const zero a h = refl
  total-const (suc n) a h = omega (arith, h, total-const n a h)

  total-update_ge : (n : ℕ) (f : ℕ → A) (i : ℕ) (a : A) → n ≤ i → total n (update f i a) ≡ total n f
  unfolding total
  total-update_ge zero f i a h = refl
  total-update_ge (suc n) f i a h = ground (arith, total-update_ge n f i a)

  pub total-update :
      (n : ℕ) (f : ℕ → A) (i : ℕ) (a : A)
      → i < n
      → total n (update f i a) + weight (f i) ≡ total n f + weight a
  unfolding total
  total-update zero f i a h = absurd (omega arith)
  total-update (suc n) f i a h = ground (arith, total-update n f i a, total-update_ge n f i a)

  pub le-total : (n : ℕ) (f : ℕ → A) (i : ℕ) → i < n → weight (f i) ≤ total n f
  unfolding total
  le-total zero f i h = absurd (omega arith)
  le-total (suc n) f i h = ground (arith, le-total n f i)

  pub add-le-total :
      (n : ℕ) (f : ℕ → A) (i j : ℕ)
      → i < n
      → j < n
      → i ≢ j
      → weight (f i) + weight (f j) ≤ total n f
  unfolding total
  add-le-total zero f i j hi hj ne = absurd (omega arith)
  add-le-total (suc n) f i j hi hj ne =
      ground (arith, add-le-total n f i j, le-total n f i, le-total n f j)
