-- ===== src/Tests/Values.antt =====
-- Inputs that the tests share.
use mtpmount.Base.{ℕ, ◌+◌, ◌-◌, ◌&&◌, [], ◌∷◌, leb, if◌then◌else◌}
use mtpmount.Base.Text.{Text, codes}
use mtpmount.Words.{FileTime}
use mtpmount.Path.{Name, FsPath}
use mtpmount.Fs.{Node, directory, nil, new_info}

-- `towupper` on the letters of ASCII.
abbrev pub ascii_upper : ℕ → ℕ
ascii_upper c = if leb 97 c && leb c 122 then c - 32 else c

-- The paths `DCIM\a b.jpg`, in two spellings, and `DCIM\b.jpg`.
abbrev pub dcim : Name
dcim = record { actual_case = codes "DCIM"; upper_case = codes "DCIM" }

abbrev pub photo : Name
photo = record { actual_case = codes "a b.jpg"; upper_case = codes "A B.JPG" }

abbrev pub photo_path : FsPath
photo_path = dcim ∷ photo ∷ []

abbrev pub photo_path_lower : FsPath
photo_path_lower = record { actual_case = codes "dcim"; upper_case = codes "DCIM" } ∷ photo ∷ []

abbrev pub other_path : FsPath
other_path = dcim ∷ record { actual_case = codes "b.jpg"; upper_case = codes "B.JPG" } ∷ []

abbrev pub noon : FileTime
noon = record { low_date_time = 5; high_date_time = 1 }

abbrev pub empty_root : Node
empty_root = directory (new_info (codes "root")) nil

-- A hash function with many conflicts.
abbrev pub length_mod : Text → ℕ
length_mod [] = 0
length_mod (c ∷ t) = length_mod t + 1
