-- ===== src/Token.antt =====
-- mtpaccess/Utils.cpp: `Utils::tokenize`, and the command line that `main` in
-- mtpmount/MtpMountEntry.cpp sends to the daemon, which splits it with `tokenize`.
pub mod RoundTrip
use mtpmount.Base.{ℕ, Bool, true, false, not, ◌&&◌, List, [], ◌∷◌, ◌++◌, ◌==◌, length}
use mtpmount.Base.Text.{Text}

abbrev pub space : ℕ
space = 32

abbrev pub quote : ℕ
quote = 34

-- The token that is left at the end is kept unless it is empty.
finish : Text → List Text → List Text
finish [] out = out
finish (c ∷ token) out = out ++ (c ∷ token) ∷ []

tokenize_loop : Text → Text → Bool → List Text → List Text
unfolding finish
tokenize_loop [] token escaped out = finish token out
tokenize_loop (c ∷ s) token escaped out = elim ((c == space) && not escaped) [
  | true ↦ tokenize_loop s [] escaped (out ++ token ∷ [])
  | false ↦ elim (c == quote) [
    | true ↦ tokenize_loop s token (not escaped) out
    | false ↦ tokenize_loop s (token ++ c ∷ []) escaped out
  ]
]

-- `Utils::tokenize`, the vector that it fills; it returns its length.
unfoldable pub tokenize : Text → List Text
unfolding tokenize_loop
tokenize s = tokenize_loop s [] false []

command_loop : List Text → Bool → Text → Text
command_loop [] first command = command
command_loop (arg ∷ args) true command =
    command_loop args false (((command ++ quote ∷ []) ++ arg) ++ quote ∷ [])
command_loop (arg ∷ args) false command =
    command_loop args false ((((command ++ space ∷ []) ++ quote ∷ []) ++ arg) ++ quote ∷ [])

-- What `main` sends for its arguments, the name of the program first.
unfoldable pub send_command : List Text → Text
unfolding command_loop
send_command argv = command_loop argv true (b'c' ∷ [])
