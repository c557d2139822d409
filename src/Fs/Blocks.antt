-- ===== src/Fs/Blocks.antt =====
-- mtpaccess/TestFileSystem.cpp: the content of a file in blocks.
use mtpmount.Base.{
  ℕ, zero, suc, ◌+◌, ◌*◌, ◌/◌, ◌%◌, ◌≤◌, ◌≡◌, refl, sym, ap, ◌∙◌, [], ◌∷◌, ◌++◌, arith, length,
  take, drop, append_assoc, append-nil, length-append, drop-eq-nil,
}
use Prim.Native.Nat.add
use mtpmount.Base.Text.{Text}
use mtpmount.Fs.{
  Blocks, block_size, read_bytes, read_blocks, fill_with_data, content_to_stream, payload_size,
}

-- The bytes that `n` calls of `get` give: those of the stream, then 255 for each that is missing.
abbrev pub bytes_read : ℕ → Text → Text
bytes_read zero stream = []
bytes_read (suc n) [] = 255 ∷ bytes_read n []
bytes_read (suc n) (c ∷ stream) = c ∷ bytes_read n stream

length-bytes_read : (n : ℕ) (s : Text) → length (bytes_read n s) ≡ n
length-bytes_read zero s = refl
length-bytes_read (suc n) [] = ap suc (length-bytes_read n [])
length-bytes_read (suc n) (c ∷ s) = ap suc (length-bytes_read n s)

-- A stream that is long enough gives its own bytes.
pub bytes_read-take : (n : ℕ) (s : Text) → n ≤ length s → bytes_read n s ≡ take n s
bytes_read-take zero s h = refl
bytes_read-take (suc n) [] h = absurd (omega arith)
bytes_read-take (suc n) (c ∷ s) h = ap (◌∷◌ c) (bytes_read-take n s (omega arith))

read_bytes_lem : (n : ℕ) (s : Text) → read_bytes n s ≡ (bytes_read n s, drop n s)
unfolding read_bytes
read_bytes_lem zero s = refl
read_bytes_lem (suc n) [] = ground (arith, read_bytes_lem n [], drop-eq-nil {A = ℕ} n [])
read_bytes_lem (suc n) (c ∷ s) = ground (arith, read_bytes_lem n s)

bytes_read-add :
    (m n : ℕ) (s : Text) → bytes_read (m + n) s ≡ bytes_read m s ++ bytes_read n (drop m s)
bytes_read-add zero n s = rw add.zero
bytes_read-add (suc m) n [] =
    rw (add.suc, bytes_read-add m n [], drop-eq-nil {A = ℕ} m [] (omega arith))
bytes_read-add (suc m) n (c ∷ s) = rw (add.suc, bytes_read-add m n s)

drop-add : (m n : ℕ) (s : Text) → drop (m + n) s ≡ drop n (drop m s)
drop-add zero n s = rw add.zero
drop-add (suc m) n [] = rw (drop-eq-nil {A = ℕ} n [] (omega arith), add.suc)
drop-add (suc m) n (c ∷ s) = rw (add.suc, drop-add m n s)

content_to_stream-append :
    (a b : Blocks) → content_to_stream (a ++ b) ≡ content_to_stream a ++ content_to_stream b
unfolding content_to_stream
content_to_stream-append [] b = refl
content_to_stream-append (block ∷ a) b = simp (content_to_stream-append a, append_assoc)

read_blocks_lem :
    (n : ℕ) (s : Text)
    → (content_to_stream (read_blocks n s).0 ≡ bytes_read (n * block_size) s)
      × ((read_blocks n s).1 ≡ drop (n * block_size) s)
unfolding read_blocks content_to_stream
read_blocks_lem zero s = (refl, refl)
read_blocks_lem (suc n) s =
    let (content, rest) = read_blocks_lem n (drop block_size s) in
    let e : suc n * block_size ≡ block_size + n * block_size = omega arith in
    rw (read_bytes_lem block_size s, e)
      (rw (bytes_read-add block_size (n * block_size) s, drop-add block_size (n * block_size) s)
        (ap (◌++◌ _) content, rest))

-- A file that was filled from a stream holds the bytes that were read, block borders or not.
pub content-fill_with_data :
    (stream : Text) (size : ℕ)
    → content_to_stream (fill_with_data stream size) ≡ bytes_read size stream
unfolding fill_with_data
content-fill_with_data stream size =
    let (content, rest) = read_blocks_lem (size / block_size) stream in
    let e : size / block_size * block_size + size % block_size ≡ size = omega arith in
    rw
      (
        content_to_stream-append,
        content,
        rest,
        read_bytes_lem (size % block_size) (drop (size / block_size * block_size) stream),
      )
      (unfold content_to_stream in
        rw append-nil (
          sym (bytes_read-add (size / block_size * block_size) (size % block_size) stream)
          ∙ ap (λ n. bytes_read n stream) e))

payload_size-length : (blocks : Blocks) → payload_size blocks ≡ length (content_to_stream blocks)
unfolding payload_size content_to_stream
payload_size-length [] = refl
payload_size-length (block ∷ blocks) =
    omega (arith, payload_size-length blocks, length-append block (content_to_stream blocks))

-- A stored stream comes back: of a stream with at least `size` bytes the file holds the first `size`,
-- and that is the size it reports.
pub stored_stream :
    (stream : Text) (size : ℕ)
    → size ≤ length stream
    → (content_to_stream (fill_with_data stream size) ≡ take size stream)
      × (payload_size (fill_with_data stream size) ≡ size)
stored_stream stream size h = (
  content-fill_with_data stream size ∙ bytes_read-take size stream h,
  payload_size-length _
      ∙ ap length (content-fill_with_data stream size)
      ∙ length-bytes_read size stream,
)
