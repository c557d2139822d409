-- ===== src/Daemon/Ipc/RoundTrip.antt =====
-- mtpmount/IPC.cpp: what the controller gets of a command that the daemon runs.
use mtpmount.Base.{
  ℕ, ◌<◌, false, Option, some, List, [], ◌∷◌, ◌++◌, ◌≡◌, ◌≢◌, refl, ap, ◌∙◌, sym, subst, arith,
  length, map, All, drop, take-append-drop, append_assoc, append-nil,
}
use mtpmount.Base.Text.{Text, Lacks}
use mtpmount.Base.Digits.{print_base, print_base-AreDigits, length-print_base, IsDigit}
use mtpmount.Base.Strto.{strto-print_base}
use mtpmount.Token.{tokenize, send_command, quote}
use mtpmount.Token.RoundTrip.{without_last_empty, tokenize-send_command}
use mtpmount.Daemon.Ipc.{
  slot_size, c_string, deliver, deliver_all, answers, listen_round, answered, listen, stoi, receive,
  command,
}

-- A text that a mailslot delivers whole.
abbrev pub Fits : Text → Type 0
Fits s = (length s < slot_size) × Lacks 0 s

c_string_self : (s : Text) → Lacks 0 s → c_string s ≡ s
unfolding c_string
c_string_self [] h = refl
c_string_self (c ∷ s) h = ground (arith, c_string_self s h.1)

deliver-Fits : (c : ℕ) (s : Text) → c ≢ 0 → Fits s → deliver (c ∷ s) ≡ (c ∷ s) ∷ []
unfolding deliver c_string
deliver-Fits c s h f = ground (arith, c_string_self s f.1)

receive-output :
    (output : List Text) (rest printed : List Text)
    → All Fits output
    → receive (deliver_all (map (λ s. b'o' ∷ s) output ++ rest)) printed
      ≡ receive (deliver_all rest) (printed ++ output)
unfolding receive deliver_all
receive-output [] rest printed h = simp (append-nil)
receive-output (s ∷ output) rest printed (hs, h) = rw (deliver-Fits b'o' s (λ e. cc) hs) (
    receive-output output rest (printed ++ s ∷ []) h
    ∙ ap (receive (deliver_all rest)) (append_assoc printed (s ∷ []) output))

digits-Lack : (s : Text) → All IsDigit s → Lacks 0 s
digits-Lack [] h = tt
digits-Lack (c ∷ s) h = (λ e. omega (arith, h.0.0, e), digits-Lack s h.1)

print_base-Fits : (code : ℕ) → code < 1000 → Fits (print_base 10 code)
print_base-Fits code h =
    let (c, t, e, all) = print_base-AreDigits code in
    (omega (arith, h, length-print_base 10 code), subst (Lacks 0) (sym e) (digits-Lack (c ∷ t) all))

receive-code :
    (code : ℕ) (printed : List Text)
    → code < 1000
    → receive (deliver_all ((b'r' ∷ print_base 10 code) ∷ [])) printed ≡ some (printed, code)
unfolding receive deliver_all stoi
receive-code code printed h =
    rw (deliver-Fits b'r' (print_base 10 code) (λ e. cc) (print_base-Fits code h))
      (ground (arith, strto-print_base code, h))

receive-answers :
    (output : List Text) (code : ℕ)
    → All Fits output
    → code < 1000
    → receive (deliver_all (answers output code)) [] ≡ some (output, code)
unfolding answers
receive-answers output code h small =
    receive-output output ((b'r' ∷ print_base 10 code) ∷ []) [] h ∙ receive-code code output small

module _ {L : Type 0} (callback : List Text → L → Option (L × List Text × ℕ)) where
  listen-command :
      (s : Text) (l l' : L) (output : List Text) (code : ℕ)
      → Fits s
      → callback (tokenize s) l ≡ some (l', output, code)
      → listen callback (deliver (b'c' ∷ s)) l ≡ (answers output code, some (l', false))
  unfolding listen listen_round answered
  listen-command s l l' output code f run = rw (deliver-Fits b'c' s (λ e. cc) f) (
      rw (run, listen, listen_round, answered)
        (ap (λ t. (t, some (l', false))) (append-nil (answers output code))))

  -- A command whose message fits into the mailslot is run once by a daemon that waits for it, with
  -- the arguments of the controller, none of which has a quote, but for an empty last one. If the
  -- function that the daemon calls returns, the controller gets its code, and prints its output, line
  -- by line, where the lines fit into the mailslot and the code is below 1000.
  pub command-send_command :
      (argv : List Text) (l l' : L) (output : List Text) (code : ℕ)
      → All (Lacks quote) argv
      → Fits (drop 1 (send_command argv))
      → callback (without_last_empty argv) l ≡ some (l', output, code)
      → All Fits output
      → code < 1000
      → (listen callback (deliver (send_command argv)) l ≡ (answers output code, some (l', false)))
        × (command callback (send_command argv) l ≡ some (output, code))
  unfolding command
  command-send_command argv l l' output code quotes fits run lines small =
      let (head, tokens) = tokenize-send_command argv quotes in
      let s = drop 1 (send_command argv) in
      let message : send_command argv ≡ b'c' ∷ s =
        sym (take-append-drop 1 (send_command argv)) ∙ ap (λ t. t ++ s) head in
      let heard : listen callback (deliver (send_command argv)) l
          ≡ (answers output code, some (l', false)) =
        ap (λ m. listen callback (deliver m) l) message
        ∙ listen-command s l l' output code fits (ap (λ t. callback t l) tokens ∙ run) in
      (
        heard,
        ap (λ r. receive (deliver_all r.0) []) heard ∙ receive-answers output code lines small,
      )
