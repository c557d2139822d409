-- ===== src/Token/RoundTrip.antt =====
-- mtpmount/MtpMountEntry.cpp and mtpaccess/Utils.cpp: a command line that is sent and split.
use mtpmount.Base.{
  true, false, List, [], ◌∷◌, ◌++◌, ◌≡◌, refl, sym, ◌∙◌, arith, take, drop, All, append_assoc,
  append-nil,
}
use mtpmount.Base.Text.{Text, Lacks}
use mtpmount.Token.{space, quote, finish, tokenize_loop, tokenize, command_loop, send_command}

-- The arguments, without the last one if that is empty.
abbrev pub without_last_empty : List Text → List Text
without_last_empty [] = []
without_last_empty ([] ∷ []) = []
without_last_empty ((c ∷ arg) ∷ []) = (c ∷ arg) ∷ []
without_last_empty (arg ∷ next ∷ args) = arg ∷ without_last_empty (next ∷ args)

-- Quoted arguments, each behind a space.
quoted : List Text → Text
quoted [] = []
quoted (arg ∷ args) = space ∷ quote ∷ (arg ++ quote ∷ quoted args)

command_loop-quoted :
    (args : List Text) (command : Text) → command_loop args false command ≡ command ++ quoted args
unfolding command_loop quoted
command_loop-quoted [] command = sym (append-nil command)
command_loop-quoted (arg ∷ args) command = simp (command_loop-quoted args, append_assoc)

-- Inside quotes every character but the quote is taken.
tokenize_loop-arg :
    (arg rest token : Text) (out : List Text)
    → Lacks quote arg
    → tokenize_loop (arg ++ rest) token true out ≡ tokenize_loop rest (token ++ arg) true out
unfolding tokenize_loop
tokenize_loop-arg [] rest token out h = rw append-nil
tokenize_loop-arg (c ∷ arg) rest token out (ne, h) =
    ground
      (arith, tokenize_loop-arg arg rest (token ++ c ∷ []) out h, append_assoc token (c ∷ []) arg)

-- The token at hand and the quoted arguments behind it.
tokenize_loop-quoted :
    (args : List Text) (token : Text) (out : List Text)
    → All (Lacks quote) args
    → tokenize_loop (quoted args) token false out ≡ out ++ without_last_empty (token ∷ args)
unfolding tokenize_loop quoted finish
tokenize_loop-quoted [] [] out h = sym (append-nil out)
tokenize_loop-quoted [] (c ∷ token) out h = refl
tokenize_loop-quoted (arg ∷ args) token out (ha, h) =
    rw
      (
        tokenize_loop-arg arg (quote ∷ quoted args) [] (out ++ token ∷ []) ha,
        tokenize_loop-quoted args arg (out ++ token ∷ []) h,
      )
      (append_assoc out (token ∷ []) _)

send_command-quoted :
    (arg : Text) (args : List Text)
    → send_command (arg ∷ args) ≡ b'c' ∷ quote ∷ (arg ++ quote ∷ quoted args)
unfolding send_command command_loop
send_command-quoted arg args = simp (command_loop-quoted args, append_assoc)

-- The command behind the letter `c`, split into tokens, gives the arguments of the controller, in
-- order and unchanged, whatever spaces they hold, if none has a quote in it; only an empty last
-- argument is lost.
pub tokenize-send_command :
    (argv : List Text)
    → All (Lacks quote) argv
    → (take 1 (send_command argv) ≡ b'c' ∷ [])
      × (tokenize (drop 1 (send_command argv)) ≡ without_last_empty argv)
unfolding tokenize
tokenize-send_command [] h = unfold send_command command_loop tokenize_loop finish in (refl, refl)
tokenize-send_command (arg ∷ args) (ha, h) = rw (send_command-quoted arg args) (
  refl,
  tokenize_loop-open arg args
      ∙ tokenize_loop-arg arg (quote ∷ quoted args) [] [] ha
      ∙ tokenize_loop-quoted args arg [] h,
)
  where
    tokenize_loop-open :
        (arg : Text) (args : List Text)
        → tokenize_loop (quote ∷ (arg ++ quote ∷ quoted args)) [] false []
          ≡ tokenize_loop (arg ++ quote ∷ quoted args) [] true []
    tokenize_loop-open arg args = unfold tokenize_loop in refl
