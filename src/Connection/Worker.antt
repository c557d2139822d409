-- ===== src/Connection/Worker.antt =====
-- mtpcache/ConnectionSync.cpp: the order in which the worker thread does the requests.
use mtpmount.Base.{
  ℕ, zero, suc, ◌+◌, Bool, Option, none, some, List, [], ◌∷◌, ◌++◌, ◌==◌, ◌>>=◌, length, ◌≡◌, refl,
  sym, ap, ◌∙◌, arith, append_assoc, append-nil,
}
use mtpmount.Base.Assoc.{find_key}
use mtpmount.Connection.{Device, TreeAccessRequest, FileRequest, Connection}
use mtpmount.Connection.Handlers.{
  answer, thread_turn, thread_handle_tree_access_req, thread_handle_file_pull_req,
  thread_handle_file_push_req, do_tree_access, do_file_pull, do_file_push,
}

-- The callbacks that were told, in order.
unfoldable pub told : List (ℕ × Bool) → List ℕ
told [] = []
told ((k, ok) ∷ l) = k ∷ told l

abbrev pub one : Option ℕ → List ℕ
one none = []
one (some k) = k ∷ []

-- The callbacks of the requests of a queue.
unfoldable pub tree_callbacks : {F : Type 0} → List (TreeAccessRequest F) → List ℕ
tree_callbacks [] = []
tree_callbacks (r ∷ rs) = one r.callback ++ tree_callbacks rs

unfoldable pub file_callbacks : List FileRequest → List ℕ
file_callbacks [] = []
file_callbacks (r ∷ rs) = one r.callback ++ file_callbacks rs

told-append : (l m : List (ℕ × Bool)) → told (l ++ m) ≡ told l ++ told m
unfolding told
told-append [] m = refl
told-append ((k, ok) ∷ l) m = ap (λ t. k ∷ t) (told-append l m)

told-answer : (k : Option ℕ) (ok : Bool) → told (answer k ok) ≡ one k
unfolding told
told-answer none ok = refl
told-answer (some k) ok = refl

-- Telling one callback moves it from the front of what is to be told to the end of what was.
told_next :
    (l : List (ℕ × Bool)) (k : Option ℕ) (ok : Bool) (m : List ℕ)
    → told (l ++ answer k ok) ++ m ≡ told l ++ (one k ++ m)
told_next l k ok m =
    rw (told-append l (answer k ok), told-answer k ok) (append_assoc (told l) (one k) m)

module _ {D S F : Type 0} (towupper : ℕ → ℕ) (dev : Device D S F) where
  -- The worker for a number of turns; `none` if it ends before.
  unfoldable pub run : ℕ → Connection D S F → Option (Connection D S F)
  run zero c = some c
  run (suc n) c = thread_turn towupper dev c >>= run n

  -- The requests that wait.
  abbrev pub pending : Connection D S F → ℕ
  pending c =
      length c.tree_access_requests + (length c.file_pull_requests + length c.file_push_requests)

  -- Their callbacks: tree accesses before pulls before pushes, each queue in its order.
  abbrev pub callbacks : Connection D S F → List ℕ
  callbacks c =
      tree_callbacks c.tree_access_requests
      ++ (file_callbacks c.file_pull_requests ++ file_callbacks c.file_push_requests)

  abbrev with_queues :
      List (TreeAccessRequest F)
      → List FileRequest
      → List FileRequest
      → Connection D S F
      → Connection D S F
  with_queues ts ps us c = record c {
    tree_access_requests = ts;
    file_pull_requests = ps;
    file_push_requests = us;
  }

  -- A turn with requests does one of them.
  abbrev IsProgress : Connection D S F → ℕ → Connection D S F → Type 0
  IsProgress c n c' =
      (thread_turn towupper dev c ≡ some c')
      × ((pending c' ≡ n) × (told c'.answered ++ callbacks c' ≡ told c.answered ++ callbacks c))

  queues_turn :
      (ts : List (TreeAccessRequest F)) (ps us : List FileRequest) (c : Connection D S F) (n : ℕ)
      → length ts + (length ps + length us) ≡ suc n
      → (c' : Connection D S F) × IsProgress (with_queues ts ps us c) n c'
  unfolding thread_turn thread_handle_tree_access_req thread_handle_file_pull_req
      thread_handle_file_push_req tree_callbacks file_callbacks
  queues_turn (r ∷ ts) ps us c n h =
      let done = do_tree_access towupper dev (find_key ◌==◌ r.drv c.my_drives) r c.device in
      (
        _,
        (
          refl,
          (
            omega arith,
            told_next c.answered r.callback done.1
                  (tree_callbacks ts ++ (file_callbacks ps ++ file_callbacks us))
                ∙ ap (λ t. told c.answered ++ t)
                    (sym (
                      append_assoc (one r.callback) (tree_callbacks ts)
                        (file_callbacks ps ++ file_callbacks us))),
          ),
        ),
      )
  queues_turn [] (r ∷ ps) us c n h =
      let done = do_file_pull towupper dev (find_key ◌==◌ r.drv c.my_drives) r c.device c.files in
      (
        _,
        (
          refl,
          (
            omega arith,
            told_next c.answered r.callback done.1 (file_callbacks ps ++ file_callbacks us)
                ∙ ap (λ t. told c.answered ++ t)
                    (sym (append_assoc (one r.callback) (file_callbacks ps) (file_callbacks us))),
          ),
        ),
      )
  queues_turn [] [] (r ∷ us) c n h =
      let done = do_file_push towupper dev (find_key ◌==◌ r.drv c.my_drives) r c.files c.device in
      (_, (refl, (omega arith, told_next c.answered r.callback done.1 (file_callbacks us))))
  queues_turn [] [] [] c n h = absurd (omega arith)

  no_callbacks :
      (ts : List (TreeAccessRequest F)) (ps us : List FileRequest)
      → length ts + (length ps + length us) ≡ 0
      → tree_callbacks ts ++ (file_callbacks ps ++ file_callbacks us) ≡ []
  unfolding tree_callbacks file_callbacks
  no_callbacks [] [] [] h = refl
  no_callbacks [] [] (r ∷ us) h = absurd (omega arith)
  no_callbacks [] (r ∷ ps) us h = absurd (omega arith)
  no_callbacks (r ∷ ts) ps us h = absurd (omega arith)

  -- As many turns as there are requests do them all: no request waits any more, and the callbacks
  -- are told one by one, those of tree accesses before those of pulls before those of pushes, and
  -- those of one queue in the order in which they came.
  pub run-pending :
      (n : ℕ) (c : Connection D S F)
      → pending c ≡ n
      → (c' : Connection D S F) × (run n c ≡ some c')
        × ((pending c' ≡ 0) × (told c'.answered ≡ told c.answered ++ callbacks c))
  unfolding run
  run-pending zero c h =
      let nothing =
        no_callbacks c.tree_access_requests c.file_pull_requests c.file_push_requests h in
      (c, refl, (h, rw (nothing, append-nil (told c.answered)) refl))
  run-pending (suc n) c h =
      let (c1, (turn, (p, kept))) =
        queues_turn c.tree_access_requests c.file_pull_requests c.file_push_requests c n h in
      let (c2, rest, (none_left, all)) = run-pending n c1 p in
      (c2, rw turn rest, (none_left, all ∙ kept))
