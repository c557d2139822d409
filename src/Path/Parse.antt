-- ===== src/Path/Parse.antt =====
-- mtpaccess/Utils.cpp: `FsPath::FsPath` and `FsPath::getFullPath`: reading a path and printing it.
use mtpmount.Base.{
  ℕ, false, [], ◌∷◌, ◌++◌, map, ◌≡◌, ◌≢◌, refl, sym, ap, ◌∙◌, arith, All, All-append, append_assoc,
  append-nil, Bool-cases, inl, inr,
}
use mtpmount.Base.Text.{Text, backslash}
use mtpmount.Path.{
  Name, FsPath, name, is_separator, push_token, parse_loop, parse_path, full_path_loop, full_path,
}

-- A component that a path can hold: not empty, no separator, its upper case as the constructor
-- leaves it.
pub record IsComponent (towupper : ℕ → ℕ) (n : Name) : Type 0 where
  pub some_text : n.actual_case ≢ []
  pub no_separator : All (λ c. is_separator c ≡ false) n.actual_case
  pub upper : n.upper_case ≡ map towupper n.actual_case

abbrev pub IsPath : (ℕ → ℕ) → FsPath → Type 0
IsPath towupper = All (IsComponent towupper)

abbrev IsToken : Text → Type 0
IsToken = All (λ c. is_separator c ≡ false)

push_token-IsPath :
    (towupper : ℕ → ℕ) (token : Text) (path : FsPath)
    → IsToken token
    → IsPath towupper path
    → IsPath towupper (push_token towupper token path)
unfolding push_token name
push_token-IsPath towupper [] path t h = h
push_token-IsPath towupper (c ∷ token) path t h =
    All-append _ path _ h (record { some_text = λ e. cc; no_separator = t; upper = refl }, tt)

parse_loop-IsPath :
    (towupper : ℕ → ℕ) (s token : Text) (path : FsPath)
    → IsToken token
    → IsPath towupper path
    → IsPath towupper (parse_loop towupper s token path)
unfolding parse_loop
parse_loop-IsPath towupper [] token path t h = push_token-IsPath towupper token path t h
parse_loop-IsPath towupper (c ∷ s) token path t h = elim (Bool-cases (is_separator c)) [
  | inl e ↦
      rw (e, parse_loop)
        (parse_loop-IsPath towupper s [] _ tt (push_token-IsPath towupper token path t h))
  | inr e ↦
      rw (e, parse_loop)
        (parse_loop-IsPath towupper s (token ++ c ∷ []) path (All-append _ token (c ∷ []) t (e, tt))
          h)
]

-- Every path that is read holds components only: none is empty and none has a separator.
pub parse_path-IsPath : (towupper : ℕ → ℕ) (s : Text) → IsPath towupper (parse_path towupper s)
unfolding parse_path
parse_path-IsPath towupper s = parse_loop-IsPath towupper s [] [] tt tt

-- The characters of a component are collected one by one.
parse_loop-token :
    (towupper : ℕ → ℕ) (t rest token : Text) (path : FsPath)
    → IsToken t
    → parse_loop towupper (t ++ rest) token path ≡ parse_loop towupper rest (token ++ t) path
unfolding parse_loop
parse_loop-token towupper [] rest token path h = rw append-nil
parse_loop-token towupper (c ∷ t) rest token path (e, h) =
    rw (e, parse_loop)
      (parse_loop-token towupper t rest (token ++ c ∷ []) path h
        ∙ ap (λ x. parse_loop towupper rest x path) (append_assoc token (c ∷ []) t))

push_token_component :
    (towupper : ℕ → ℕ) (n : Name) (path : FsPath)
    → IsComponent towupper n
    → push_token towupper n.actual_case path ≡ path ++ n ∷ []
unfolding push_token name
push_token_component towupper n path h = go n.actual_case refl
  where
    go : (t : Text) → n.actual_case ≡ t → push_token towupper t path ≡ path ++ n ∷ []
    go [] e = absurd (h.some_text e)
    go (c ∷ t) e = ground (arith, h.upper)

-- Every component behind a separator.
separated : FsPath → Text
separated [] = []
separated (n ∷ p) = backslash ∷ n.actual_case ++ separated p

full_path_loop-separated : (p : FsPath) (s : Text) → full_path_loop p false s ≡ s ++ separated p
unfolding full_path_loop separated
full_path_loop-separated [] s = sym (append-nil s)
full_path_loop-separated (n ∷ p) s = simp (full_path_loop-separated p, append_assoc)

parse_loop-separated :
    (towupper : ℕ → ℕ) (p : FsPath) (token : Text) (path : FsPath)
    → IsPath towupper p
    → parse_loop towupper (separated p) token path ≡ push_token towupper token path ++ p
unfolding parse_loop separated
parse_loop-separated towupper [] token path h = sym (append-nil _)
parse_loop-separated towupper (n ∷ p) token path (c, h) =
    rw
      (
        parse_loop-token towupper n.actual_case (separated p) [] _ c.no_separator,
        parse_loop-separated towupper p n.actual_case _ h,
        push_token_component towupper n _ c,
      )
      (append_assoc (push_token towupper token path) (n ∷ []) p)

-- A path that is printed and read again is the same path, if its components are as the constructor
-- leaves them: not empty, without separators, in upper case as `towupper` makes it.
pub parse-full_path :
    (towupper : ℕ → ℕ) (p : FsPath) → IsPath towupper p → parse_path towupper (full_path p) ≡ p
unfolding parse_path full_path
parse-full_path towupper [] h = unfold push_token in refl
parse-full_path towupper (n ∷ p) (c, h) = rw (
  full_path_loop-separated p n.actual_case,
  parse_loop-token towupper n.actual_case (separated p) [] [] c.no_separator,
  parse_loop-separated towupper p n.actual_case [] h,
  push_token_component towupper n [] c,
)

-- For every text: to print the path that is read from it, and to read that, gives the same path.
pub parse-full_path-parse :
    (towupper : ℕ → ℕ) (s : Text)
    → parse_path towupper (full_path (parse_path towupper s)) ≡ parse_path towupper s
parse-full_path-parse towupper s = parse-full_path towupper _ (parse_path-IsPath towupper s)
