-- ===== src/Dokan/Handlers/ReadWrite.antt =====
-- dokanconnect/DokanDriveWrapper.cpp: reading, writing and resizing of a file whose local copy is
-- there.
use mtpmount.Base.{
  ℕ, Bool, true, false, Option, some, ◌≡◌, refl, ap, ◌∙◌, arith, length, if◌then◌else◌,
}
use mtpmount.Base.Text.{Text, eq_text, eq_text_iff}
use mtpmount.Path.{FsPath}
use mtpmount.Dokan.{Services, Wrapper, success}
use mtpmount.Dokan.LocalFile.{write_loop}
use mtpmount.Dokan.LocalFile.Written.{read_loop-write_loop}
use mtpmount.Dokan.Handlers.{read_file, read_stream, write_file, write_stream}

-- What the callbacks rely on: `cached` names the local copy of a file that is there. An access to such
-- a file gives that name, and leaves it and every local file; a local file holds what is put into it.
pub record Laws {W : Type 0} (sv : Services W) (drive : ℕ) (cached : FsPath → W → Option Text)
    : Type 0 where
  pub begins :
      (p : FsPath) (write : Bool) (w : W) (name : Text)
      → cached p w ≡ some name
      → ((sv.begin_access p drive write w).1 ≡ name)
        × (cached p (sv.begin_access p drive write w).0 ≡ some name)
        × ((m : Text) → sv.local_file m (sv.begin_access p drive write w).0 ≡ sv.local_file m w)
  pub ends :
      (p : FsPath) (write : Bool) (w : W) (name : Text)
      → cached p w ≡ some name
      → (cached p (sv.end_access p drive write w) ≡ some name)
        × ((m : Text) → sv.local_file m (sv.end_access p drive write w) ≡ sv.local_file m w)
  pub puts :
      (p : FsPath) (n m s : Text) (w : W)
      → (cached p (sv.put_local_file n s w) ≡ cached p w)
        × (sv.local_file m (sv.put_local_file n s w)
            ≡ (if eq_text n m then some s else sv.local_file m w))

module _ {W : Type 0} (sv : Services W) (d : Wrapper) (cached : FsPath → W → Option Text)
    (laws : Laws sv d.drive_id cached) where
  -- A write puts its bytes into the local copy, and touches no other local file.
  write_file-puts :
      (path : FsPath) (buffer : Text) (offset : ℕ) (w : W) (name s : Text)
      → cached path w ≡ some name
      → sv.local_file name w ≡ some s
      → let r = write_file sv d path buffer offset w in
        (r.1 ≡ length buffer)
        × (r.2 ≡ success)
        × (cached path r.0 ≡ some name)
        × ((m : Text)
            → sv.local_file m r.0
              ≡ (if eq_text name m then some (write_loop offset buffer s) else sv.local_file m w))
  unfolding write_file write_stream
  write_file-puts path buffer offset w name s c f =
      let (named, stays, files) = laws.begins path true w name c in
      let w1 = (sv.begin_access path d.drive_id true w).0 in
      let t = write_loop offset buffer s in
      let (ends, kept) = laws.ends path true w1 name stays in
      let put = λ (m : Text). laws.puts path name m t (sv.end_access path d.drive_id true w1) in
      rw (named, files name, f)
        (
          refl,
          refl,
          (put name).0 ∙ ends,
          λ m. (put m).1 ∙ ap (λ o. if eq_text name m then some t else o) (kept m ∙ files m),
        )

  -- Of a file whose local copy is there: DokanWriteFile writes all its bytes and succeeds; the local copy is
  -- then as a write at the offset leaves it, and no other local file has changed; and DokanReadFile at
  -- the same offset, for as many bytes, gives what was written, and succeeds.
  pub written_is_read :
      (path : FsPath) (buffer : Text) (offset : ℕ) (w : W) (name s : Text)
      → cached path w ≡ some name
      → sv.local_file name w ≡ some s
      → let r = write_file sv d path buffer offset w in
        (r.1 ≡ length buffer)
        × (r.2 ≡ success)
        × ((m : Text)
            → sv.local_file m r.0
              ≡ (if eq_text name m then some (write_loop offset buffer s) else sv.local_file m w))
        × ((read_file sv d path (length buffer) offset r.0).1 ≡ buffer)
        × ((read_file sv d path (length buffer) offset r.0).2 ≡ success)
  unfolding read_file read_stream
  written_is_read path buffer offset w name s c f =
      let (count, status, stays, put) = write_file-puts path buffer offset w name s c f in
      let w' = (write_file sv d path buffer offset w).0 in
      let (named, again, files) = laws.begins path false w' name stays in
      let here : sv.local_file name w' ≡ some (write_loop offset buffer s) =
        ground (arith, put name, eq_text_iff name name) in
      (
        count,
        status,
        put,
        rw (named, files name, here) (read_loop-write_loop offset buffer s),
        refl,
      )
