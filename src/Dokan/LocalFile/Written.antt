-- ===== src/Dokan/LocalFile/Written.antt =====
-- dokanconnect/DokanDriveWrapper.cpp: a file after a write, and what is read of it.
use mtpmount.Base.{
  ℕ, zero, suc, ◌+◌, ◌<◌, [], ◌∷◌, ◌++◌, ◌≡◌, refl, ap, ◌∙◌, arith, length, append_assoc,
}
use mtpmount.Base.Text.{Text}
use mtpmount.Dokan.LocalFile.{read_loop, seek, put_at, write_loop, resize}

put_at-split : (n b : ℕ) (s : Text) → put_at n b s ≡ resize n s ++ b ∷ seek (suc n) s
unfolding put_at resize seek
put_at-split zero b [] = refl
put_at-split zero b (c ∷ s) = refl
put_at-split (suc n) b [] = ap (◌∷◌ 0) (put_at-split n b [])
put_at-split (suc n) b (c ∷ s) = ap (◌∷◌ c) (put_at-split n b s)

resize-put_at : (n b : ℕ) (s : Text) → resize (suc n) (put_at n b s) ≡ resize n s ++ b ∷ []
unfolding put_at resize
resize-put_at zero b [] = refl
resize-put_at zero b (c ∷ s) = refl
resize-put_at (suc n) b [] = ap (◌∷◌ 0) (resize-put_at n b [])
resize-put_at (suc n) b (c ∷ s) = ap (◌∷◌ c) (resize-put_at n b s)

seek-nil : (m : ℕ) → seek m [] ≡ []
unfolding seek
seek-nil zero = refl
seek-nil (suc m) = refl

seek-put_at : (n m b : ℕ) (s : Text) → n < m → seek m (put_at n b s) ≡ seek m s
unfolding put_at seek
seek-put_at n zero b s h = absurd (omega arith)
seek-put_at zero (suc m) b [] h = seek-nil m
seek-put_at zero (suc m) b (c ∷ s) h = refl
seek-put_at (suc n) (suc m) b [] h = seek-put_at n m b [] (omega arith) ∙ seek-nil m
seek-put_at (suc n) (suc m) b (c ∷ s) h = seek-put_at n m b s (omega arith)

-- A write leaves the bytes in front of its position, null bytes where there were none, then has its
-- bytes, then what was behind them.
pub write_loop-split :
    (buffer : Text) (pos b : ℕ) (s : Text)
    → write_loop pos (b ∷ buffer) s
      ≡ resize pos s ++ b ∷ (buffer ++ seek (pos + suc (length buffer)) s)
unfolding write_loop
write_loop-split [] pos b s =
    put_at-split pos b s ∙ ap (λ m. resize pos s ++ b ∷ seek m s) (omega arith)
write_loop-split (d ∷ buffer) pos b s =
    write_loop-split buffer (suc pos) d (put_at pos b s)
    ∙ rw (resize-put_at pos b s, seek-put_at pos (suc pos + suc (length buffer)) b s (omega arith))
        (append_assoc (resize pos s) (b ∷ [])
            (d ∷ (buffer ++ seek (suc pos + suc (length buffer)) s))
          ∙ ap (λ m. resize pos s ++ b ∷ d ∷ (buffer ++ seek m s)) (omega arith))

seek-resize : (n : ℕ) (s t : Text) → seek n (resize n s ++ t) ≡ t
unfolding seek resize
seek-resize zero s t = refl
seek-resize (suc n) [] t = seek-resize n [] t
seek-resize (suc n) (c ∷ s) t = seek-resize n s t

read_loop-append : (s t : Text) → read_loop (length s) (s ++ t) ≡ s
unfolding read_loop
read_loop-append [] t = refl
read_loop-append (c ∷ s) t = ap (◌∷◌ c) (read_loop-append s t)

-- What is written is read.
pub read_loop-write_loop :
    (pos : ℕ) (buffer s : Text)
    → read_loop (length buffer) (seek pos (write_loop pos buffer s)) ≡ buffer
read_loop-write_loop pos [] s = unfold read_loop in refl
read_loop-write_loop pos (b ∷ buffer) s =
    ap (λ t. read_loop (suc (length buffer)) (seek pos t)) (write_loop-split buffer pos b s)
    ∙ ap (read_loop (suc (length buffer)))
        (seek-resize pos s (b ∷ (buffer ++ seek (pos + suc (length buffer)) s)))
    ∙ read_loop-append (b ∷ buffer) (seek (pos + suc (length buffer)) s)
