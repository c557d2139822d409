-- ===== src/Tests/Wakeups.antt =====
-- The worker and a thread that enqueues a request.
use mtpmount.Base.{◌+◌, ◌<◌, ◌≡◌, ◌⊎◌, refl, true, arith}
use mtpmount.Connection.Wakeup.{
  at_gap, waiting, Threads, tree_enqueued, tree_empty, pull_empty, push_empty, no_flag, sleeps,
  new_threads, Reach, start, later,
}
use mtpmount.Connection.Wakeup.Flag.{waiting_request_is_flagged, request_can_sleep}

-- The worker has found the queues empty and no flag.
abbrev idle_worker : Threads
idle_worker = record new_threads { pc = at_gap }

idle_worker_reached : Reach idle_worker
idle_worker_reached =
    later
      (later (later (later start (tree_empty refl refl)) (pull_empty refl refl))
        (push_empty refl refl refl))
      (no_flag refl refl)

-- A request is enqueued, and the worker goes to sleep.
abbrev asleep : Threads
asleep = record new_threads { pc = waiting; tree = 1; setters = 1 }

asleep_reached : Reach asleep
asleep_reached = later (later idle_worker_reached tree_enqueued) (sleeps refl)

waiting_request_is_flagged_example : (asleep.cond_var_unlocked ≡ true) ⊎ (0 < asleep.setters)
waiting_request_is_flagged_example = waiting_request_is_flagged asleep_reached refl (omega arith)

request_can_sleep_example :
    (t : Threads) × Reach t
    × (t.pc ≡ waiting)
    × (t.tree ≡ idle_worker.tree + 1)
    × (t.cond_var_unlocked ≡ true)
    × (t.setters ≡ idle_worker.setters)
    × (t.notifiers ≡ idle_worker.notifiers)
request_can_sleep_example = request_can_sleep idle_worker_reached refl
