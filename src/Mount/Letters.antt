-- ===== src/Mount/Letters.antt =====
-- mtpmount/MountCommands.cpp and mtpaccess/Utils.cpp: the letter that mount uses.
use mtpmount.Base.{
  ℕ, zero, suc, ◌+◌, ◌-◌, ◌/◌, ◌≤◌, ◌<◌, true, [], ◌∷◌, ◌≡◌, arith, All, All-mono, ◌==◌, ◌%◌,
  Bool-cases, inl, inr,
}
use mtpmount.Base.Text.{Text}
use mtpmount.Mount.Store.{get_available_drives, available_loop, finds, has_letter}
use mtpmount.Mount.Commands.{chosen, choose_letter, choose_free, upper_letter, last_or}

available_loop-bounds :
    (n letter mask : ℕ) → All (λ c. (letter ≤ c) × (c < letter + n)) (available_loop n letter mask)
unfolding available_loop
available_loop-bounds zero letter mask = tt
available_loop-bounds (suc n) letter mask =
    let rest =
      All-mono (λ c. (letter + 1 ≤ c) × (c < letter + 1 + n))
        (λ c. (letter ≤ c) × (c < letter + suc n)) (available_loop n (letter + 1) (mask / 2))
        (λ c h. omega (arith, h.0, h.1)) (available_loop-bounds n (letter + 1) (mask / 2)) in
    elim (Bool-cases (mask % 2 == 0)) [
      | inl e ↦ rw (e, available_loop) ((omega arith, omega arith), rest)
      | inr e ↦ rw (e, available_loop) rest
    ]

has_letter-bounds :
    (lo hi c : ℕ) (s : Text)
    → All (λ c. (lo ≤ c) × (c < hi)) s
    → has_letter c s ≡ true
    → (lo ≤ c) × (c < hi)
unfolding has_letter
has_letter-bounds lo hi c [] h f = cc
has_letter-bounds lo hi c (d ∷ s) h f = ground (arith, has_letter-bounds lo hi c s h.1)

has_letter-last_or : (c : ℕ) (s : Text) → has_letter (last_or c s) (c ∷ s) ≡ true
unfolding has_letter last_or
has_letter-last_or c [] = ground arith
has_letter-last_or c (d ∷ s) = ground (arith, has_letter-last_or d s)

-- The letters that Windows has free lie between A and Y.
pub finds-get_available_drives :
    (mask c : ℕ) → finds c (get_available_drives mask) ≡ true → (b'A' ≤ c) × (c < b'Z')
unfolding finds get_available_drives
finds-get_available_drives mask c h =
    has_letter-bounds b'A' b'Z' c (available_loop (b'Z' - b'A') b'A' mask)
      (available_loop-bounds (b'Z' - b'A') b'A' mask) h

-- The last free letter is a capital.
choose_free-finds :
    (s : Text) (c : ℕ)
    → All (λ c. (b'A' ≤ c) × (c < b'Z')) s
    → choose_free s ≡ chosen c
    → has_letter c s ≡ true
unfolding choose_free upper_letter
choose_free-finds [] c a h = cc
choose_free-finds (d ∷ s) c a h = ground (
  arith,
  has_letter-last_or d s,
  has_letter-bounds b'A' b'Z' (last_or d s) (d ∷ s) a (has_letter-last_or d s),
)

-- A letter that mount uses is one that Windows has free.
pub choose_letter-finds :
    (mask letter c : ℕ)
    → choose_letter mask letter ≡ chosen c
    → finds c (get_available_drives mask) ≡ true
unfolding choose_letter finds get_available_drives
choose_letter-finds mask letter c h = ground (
  arith,
  choose_free-finds (available_loop (b'Z' - b'A') b'A' mask) c
      (available_loop-bounds (b'Z' - b'A') b'A' mask),
)
