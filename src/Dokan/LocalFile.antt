-- ===== src/Dokan/LocalFile.antt =====
-- dokanconnect/DokanDriveWrapper.cpp: the streams over the local copy of a file, in DokanReadFile,
-- DokanWriteFile, DokanSetEndOfFile and DokanSetAllocationSize. A write behind the end of a file
-- fills the gap with null bytes, as the file system of Windows does.
pub mod Written
use mtpmount.Base.{
  ℕ, zero, suc, ◌+◌, ◌-◌, Bool, true, false, Option, none, some, List, [], ◌∷◌, ◌++◌, take, length,
}
use mtpmount.Base.Text.{Text}

-- The loop of DokanReadFile on what the stream has left: it ends with the buffer or the stream.
unfoldable pub read_loop : ℕ → Text → Text
read_loop zero stream = []
read_loop (suc n) [] = []
read_loop (suc n) (c ∷ stream) = c ∷ read_loop n stream

-- `seekg` behind the end leaves nothing to read.
unfoldable pub seek : ℕ → Text → Text
seek zero s = s
seek (suc n) [] = []
seek (suc n) (c ∷ s) = seek n s

-- One `put`: the byte at a position.
unfoldable pub put_at : ℕ → ℕ → Text → Text
put_at zero b [] = b ∷ []
put_at zero b (c ∷ s) = b ∷ s
put_at (suc n) b [] = 0 ∷ put_at n b []
put_at (suc n) b (c ∷ s) = c ∷ put_at n b s

-- The loop of DokanWriteFile, from the position of the stream on.
unfoldable pub write_loop : ℕ → Text → Text → Text
write_loop pos [] s = s
write_loop pos (b ∷ buffer) s = write_loop (suc pos) buffer (put_at pos b s)

-- `_chsize_s`
unfoldable pub resize : ℕ → Text → Text
resize zero s = []
resize (suc n) [] = 0 ∷ resize n []
resize (suc n) (c ∷ s) = c ∷ resize n s
