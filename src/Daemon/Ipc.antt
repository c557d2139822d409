-- ===== src/Daemon/Ipc.antt =====
-- mtpmount/IPC.cpp: the messages of the controller and the daemon. A mailslot (Windows) delivers the
-- messages that fit into it, in the order in which they are written; a text ends at its first
-- null byte when it is received. `callback` is the function that `listen` is given.
pub mod RoundTrip
use mtpmount.Base.{
  ℕ, ◌-◌, ◌^◌, Bool, true, false, not, ◌&&◌, Option, none, some, List, [], ◌∷◌, ◌++◌, ltb, leb,
  ◌==◌, if◌then◌else◌, length, map, ◌>>=◌,
}
use mtpmount.Base.Text.{Text}
use mtpmount.Base.Digits.{print_base}
use mtpmount.Base.Strto.{strto}
use mtpmount.Token.{tokenize}

-- The size of the mailslots of the daemon and of the controller.
abbrev pub slot_size : ℕ
slot_size = 1024

-- The buffer up to its first null byte.
unfoldable pub c_string : Text → Text
c_string [] = []
c_string (c ∷ s) = let rest = c_string s in if c == 0 then [] else c ∷ rest

-- `sendString` and `recvString`: a message that is too long is not written, and one without bytes is
-- not returned. The result of `sendString` is not looked at.
unfoldable pub deliver : Text → List Text
deliver s = if leb (length s) slot_size && not (length s == 0) then c_string s ∷ [] else []

unfoldable pub deliver_all : List Text → List Text
deliver_all [] = []
deliver_all (s ∷ ss) = deliver s ++ deliver_all ss

-- The messages of a command that ran: one for each line of output (`IPCStringOutputter::sync`), and
-- the code.
unfoldable pub answers : List Text → ℕ → List Text
answers output code = map (λ s. b'o' ∷ s) output ++ (b'r' ∷ print_base 10 code) ∷ []

module _ {L : Type 0} (callback : List Text → L → Option (L × List Text × ℕ)) where
  -- One round of `listen`, for a message that was received: the daemon goes on, has stopped, or has
  -- ended with an exception.
  pub data Round : Type 0 where
    goes_on stops : L → List Text → Round
    ends : Round

  unfoldable pub answered : L → Option (L × List Text × ℕ) → Round
  answered l none = ends
  answered l (some (l', output, code)) = goes_on l' (answers output code)

  unfoldable pub listen_round : Text → L → Round
  listen_round [] l = goes_on l []
  listen_round (c ∷ s) l =
      if c == b'x'
      then stops l ((b'r' ∷ b'0' ∷ []) ∷ [])
      else if c == b'c'
      then answered l (callback (tokenize s) l)
      else goes_on l []

  -- `listen`, on the messages that are received: what is sent, and the state of the daemon at the end
  -- unless it ended with an exception. `true` if it was told to stop.
  unfoldable pub listen : List Text → L → List Text × Option (L × Bool)
  listen [] l = ([], some (l, false))
  listen (m ∷ ms) l = elim (listen_round m l) [
    | ends ↦ ([], none)
    | stops l' sent ↦ (sent, some (l', true))
    | goes_on l' sent ↦ let rest = listen ms l' in (sent ++ rest.0, rest.1)
  ]

-- `std::stoi`, for an `int` of 32 bits; the codes that are sent have no sign.
unfoldable pub stoi : Text → Option ℕ
stoi s = strto s >>= λ r. if not r.0 && ltb r.1 (2 ^ 31) then some r.1 else none

-- `IPCForController::command`, on the messages that it receives: what it prints, and the code.
-- `none` stands for a wait without end and for a code that cannot be read.
unfoldable pub receive : List Text → List Text → Option (List Text × ℕ)
receive [] printed = none
receive ([] ∷ ms) printed = receive ms printed
receive ((c ∷ s) ∷ ms) printed =
    let waiting = receive ms printed in
    let printing = receive ms (printed ++ s ∷ []) in
    if c == b'r'
    then (stoi s >>= λ code. some (printed, code))
    else if c == b'o'
    then printing
    else waiting

-- A command of the controller that a daemon answers which waits for it.
unfoldable pub command :
    {L : Type 0} → (List Text → L → Option (L × List Text × ℕ)) → Text → L → Option (List Text × ℕ)
command callback cmd l = receive (deliver_all (listen callback (deliver cmd) l).0) []
