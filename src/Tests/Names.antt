-- ===== src/Tests/Names.antt =====
-- Paths, commands, names in the cache and words.
use mtpmount.Base.{◌≡◌, refl, some, List, [], ◌∷◌, arith, take, drop}
use mtpmount.Base.Text.{Text, codes}
use mtpmount.Path.{parse_path, full_path}
use mtpmount.Path.Parse.{IsComponent, IsPath, parse-full_path}
use mtpmount.Token.{tokenize, send_command}
use mtpmount.Token.RoundTrip.{without_last_empty, tokenize-send_command}
use mtpmount.Base.Digits.{print_base}
use mtpmount.Hash.{HashProvider, contains, rehash, find_unused, get_hash, get_hashes, new_provider}
use mtpmount.Hash.Distinct.{AllDistinct, IsFresh, get_hashes-AllDistinct, get_hash-some}
use mtpmount.Tests.Values.{ascii_upper, dcim, photo, photo_path, length_mod}

parsed : parse_path ascii_upper (codes "/DCIM\\\\a b.jpg") ≡ photo_path
unfolding parse_path
parsed = refl

photo_path-IsPath : IsPath ascii_upper photo_path
photo_path-IsPath =
    let letters : IsComponent ascii_upper dcim = record {
      some_text = λ e. cc;
      no_separator = (refl, (refl, (refl, (refl, tt))));
      upper = refl;
    } in
    let words : IsComponent ascii_upper photo = record {
      some_text = λ e. cc;
      no_separator = (refl, (refl, (refl, (refl, (refl, (refl, (refl, tt)))))));
      upper = refl;
    } in
    (letters, (words, tt))

parse-full_path_example : parse_path ascii_upper (full_path photo_path) ≡ photo_path
parse-full_path_example = parse-full_path ascii_upper photo_path photo_path-IsPath

abbrev arguments : List Text
arguments = codes "m" ∷ codes "a b" ∷ codes "" ∷ codes "" ∷ []

tokens : tokenize (codes "\"m\" \"a b\"") ≡ codes "m" ∷ codes "a b" ∷ []
unfolding tokenize
tokens = refl

tokenize-send_command_example :
    (take 1 (send_command arguments) ≡ codes "c")
    × (tokenize (drop 1 (send_command arguments)) ≡ without_last_empty arguments)
tokenize-send_command_example = tokenize-send_command arguments (
  ((λ e. absurd (omega arith)), tt),
  (
    ((λ e. absurd (omega arith)), ((λ e. absurd (omega arith)), ((λ e. absurd (omega arith)), tt))),
    (tt, (tt, tt)),
  ),
)

-- Two paths of one length, with one hash.
abbrev provider : HashProvider
provider = record { already_used = 4 ∷ 3 ∷ []; conflicts = 1 }

get_hashes-AllDistinct_example : AllDistinct (codes "3" ∷ codes "4" ∷ [])
get_hashes-AllDistinct_example =
    get_hashes-AllDistinct length_mod 2 (codes "abc" ∷ codes "xyz" ∷ []) provider
      (codes "3" ∷ codes "4" ∷ [])
      (unfold get_hashes get_hash find_unused contains new_provider rehash print_base in refl)

get_hash-some_example :
    (hash : Text) × (q : HashProvider) × (get_hash length_mod 2
        (codes "xyz")
        (record { already_used = 3 ∷ []; conflicts = 0 })
      ≡ some (hash, q))
    × IsFresh hash (3 ∷ [])
get_hash-some_example =
    get_hash-some length_mod (codes "xyz") (record { already_used = 3 ∷ []; conflicts = 0 }) 1
      (unfold contains rehash print_base in refl)
