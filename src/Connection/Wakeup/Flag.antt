-- ===== src/Connection/Wakeup/Flag.antt =====
-- mtpcache/ConnectionSync.cpp: the flag of the worker, and requests that wait.
use mtpmount.Base.{ℕ, ◌+◌, ◌<◌, ◌≡◌, ◌⊎◌, refl, Bool, true, ◌||◌, arith, ltb}
use mtpmount.Connection.Wakeup.{
  WorkerPc, at_tree, at_pull, at_push, at_test, at_gap, waiting, ended, Threads, Step,
  tree_enqueued, pull_enqueued, push_enqueued, stop_set, flag_set, notifies, tree_done, tree_empty,
  pull_done, pull_empty, push_done, push_empty, ends, flag_taken, no_flag, sleeps, wakes, Reach,
  start, later,
}

-- How many queues the worker has passed since it last began its loop.
abbrev passed : WorkerPc → ℕ
passed at_tree = 0
passed at_pull = 1
passed at_push = 2
passed at_test = 3
passed at_gap = 3
passed waiting = 3
passed ended = 3

-- The flag is set, or will be.
abbrev is_flagged : Threads → Bool
is_flagged s = s.cond_var_unlocked || ltb 0 s.setters

-- A request in a queue that the worker has passed is flagged.
abbrev Inv : Threads → Type 0
Inv s =
    (0 < s.tree → 0 < passed s.pc → is_flagged s ≡ true)
    × ((0 < s.pull → 1 < passed s.pc → is_flagged s ≡ true)
        × (0 < s.push → 2 < passed s.pc → is_flagged s ≡ true))

Step-Inv : {s t : Threads} → Step s t → Inv s → Inv t
Step-Inv {s} tree_enqueued (a, (b, c)) = ground arith
Step-Inv {s} pull_enqueued (a, (b, c)) = ground arith
Step-Inv {s} push_enqueued (a, (b, c)) = ground arith
Step-Inv {s} stop_set (a, (b, c)) = ground arith
Step-Inv {s} (flag_set h) (a, (b, c)) = ground arith
Step-Inv {s} (notifies h) (a, (b, c)) = ground arith
Step-Inv {s} (tree_done p h) (a, (b, c)) = ground arith
Step-Inv {s} (tree_empty p h) (a, (b, c)) = ground arith
Step-Inv {s} (pull_done p h) (a, (b, c)) = ground arith
Step-Inv {s} (pull_empty p h) (a, (b, c)) = ground arith
Step-Inv {s} (push_done p h) (a, (b, c)) = ground arith
Step-Inv {s} (push_empty p h n) (a, (b, c)) = ground arith
Step-Inv {s} (ends p h n) (a, (b, c)) = ground arith
Step-Inv {s} (flag_taken p h) (a, (b, c)) = ground arith
Step-Inv {s} (no_flag p h) (a, (b, c)) = ground arith
Step-Inv {s} (sleeps p) (a, (b, c)) = ground arith
Step-Inv {s} (wakes p) (a, (b, c)) = ground arith

Reach-Inv : {s : Threads} → Reach s → Inv s
Reach-Inv start = ground arith
Reach-Inv (later r h) = Step-Inv h (Reach-Inv r)

-- While the worker waits and a request is in a queue, the flag is set, or a thread that has enqueued
-- is about to set it.
pub waiting_request_is_flagged :
    {s : Threads}
    → Reach s
    → s.pc ≡ waiting
    → 0 < s.tree + (s.pull + s.push)
    → (s.cond_var_unlocked ≡ true) ⊎ (0 < s.setters)
waiting_request_is_flagged {s} r p h = let (a, (b, c)) = Reach-Inv r in ground arith

-- Whenever the worker has found no flag and not yet begun to wait, a request that is enqueued then
-- can leave it asleep: the worker waits with the flag set and the request in its queue, and nobody is
-- about to notify it for that request.
pub request_can_sleep :
    {s : Threads}
    → Reach s
    → s.pc ≡ at_gap
    → (t : Threads) × Reach t
      × (t.pc ≡ waiting)
      × (t.tree ≡ s.tree + 1)
      × (t.cond_var_unlocked ≡ true)
      × (t.setters ≡ s.setters)
      × (t.notifiers ≡ s.notifiers)
request_can_sleep {s} r gap = (
  _,
  later (later (later (later r tree_enqueued) (flag_set (omega arith))) (notifies (omega arith)))
      (sleeps (ground arith)),
  refl,
  refl,
  refl,
  omega arith,
  omega arith,
)
