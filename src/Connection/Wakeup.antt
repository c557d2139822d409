-- ===== src/Connection/Wakeup.antt =====
-- mtpcache/ConnectionSync.cpp: `ConnectionSyncThreadRoutine`, `_threadYield` and `_threadWakeup`, as
-- the interleavings of the worker with the threads that enqueue requests or stop it. The queues are
-- counts. What is done under `_threadStopCondVarMutex` is one step; the wait on the condition variable
-- is two, since its mutex is one of its own: the worker is about to wait, and it waits. A wait may
-- end by itself.
pub mod Flag
use mtpmount.Base.{ℕ, ◌+◌, ◌-◌, ◌<◌, ◌≡◌, Bool, true, false}

-- Where the worker stands.
pub data WorkerPc : Type 0 where
  at_tree at_pull at_push : WorkerPc  -- before the handler of a queue
  at_test : WorkerPc  -- the test of the loop in `_threadYield`
  at_gap : WorkerPc  -- the test found no flag, before the wait
  waiting : WorkerPc
  ended : WorkerPc

-- `setters` are the threads that have enqueued a request, or set `_threadNormalStop`, and are before
-- `_threadWakeup`; `notifiers` are those that have set the flag and are before `notify_one`.
pub record Threads : Type 0 where
  pub tree : ℕ
  pub pull : ℕ
  pub push : ℕ
  pub cond_var_unlocked : Bool
  pub normal_stop : Bool
  pub setters : ℕ
  pub notifiers : ℕ
  pub pc : WorkerPc

-- `notify_one`
abbrev pub notified : WorkerPc → WorkerPc
notified waiting = at_test
notified p = p

pub data Step (s : Threads) : Threads → Type 0 where
  -- The other threads.
  tree_enqueued : Step s (record s { tree = s.tree + 1; setters = s.setters + 1 })
  pull_enqueued : Step s (record s { pull = s.pull + 1; setters = s.setters + 1 })
  push_enqueued : Step s (record s { push = s.push + 1; setters = s.setters + 1 })
  stop_set : Step s (record s { normal_stop = true; setters = s.setters + 1 })
  flag_set :
      0 < s.setters
      → Step s (record s {
        cond_var_unlocked = true;
        setters = s.setters - 1;
        notifiers = s.notifiers + 1;
      })
  notifies : 0 < s.notifiers → Step s (record s { notifiers = s.notifiers - 1; pc = notified s.pc })
  -- The worker: a handler that has done a request begins the loop again.
  tree_done : s.pc ≡ at_tree → 0 < s.tree → Step s (record s { tree = s.tree - 1; pc = at_tree })
  tree_empty : s.pc ≡ at_tree → s.tree ≡ 0 → Step s (record s { pc = at_pull })
  pull_done : s.pc ≡ at_pull → 0 < s.pull → Step s (record s { pull = s.pull - 1; pc = at_tree })
  pull_empty : s.pc ≡ at_pull → s.pull ≡ 0 → Step s (record s { pc = at_push })
  push_done : s.pc ≡ at_push → 0 < s.push → Step s (record s { push = s.push - 1; pc = at_tree })
  push_empty :
      s.pc ≡ at_push → s.push ≡ 0 → s.normal_stop ≡ false → Step s (record s { pc = at_test })
  ends : s.pc ≡ at_push → s.push ≡ 0 → s.normal_stop ≡ true → Step s (record s { pc = ended })
  -- `_threadYield`
  flag_taken :
      s.pc ≡ at_test
      → s.cond_var_unlocked ≡ true
      → Step s (record s { cond_var_unlocked = false; pc = at_tree })
  no_flag : s.pc ≡ at_test → s.cond_var_unlocked ≡ false → Step s (record s { pc = at_gap })
  sleeps : s.pc ≡ at_gap → Step s (record s { pc = waiting })
  wakes : s.pc ≡ waiting → Step s (record s { pc = at_test })

-- The constructor of `ConnectionSync`.
abbrev pub new_threads : Threads
new_threads = record {
  tree = 0;
  pull = 0;
  push = 0;
  cond_var_unlocked = false;
  normal_stop = false;
  setters = 0;
  notifiers = 0;
  pc = at_tree;
}

pub data Reach : Threads → Type 0 where
  start : Reach new_threads
  later : {s t : Threads} → Reach s → Step s t → Reach t
