-- ===== src/LogSystem/ThreadPool/Join.antt =====
-- logSystem/logsCode/ThreadPoll.hpp: what the pool has done when the destructor's joins return, and
-- that they return.
use asyn_log_system.Prelude.{
  ok_injective, ℕ, zero, suc, ◌+◌, ◌*◌, ◌≤◌, ◌≡◌, refl, ap, ◌∙◌, ◌⊎◌, inl, inr, Bool, true, false,
  List, [], ◌∷◌, ◌++◌, append_assoc, append-nil, length, some, ok, arith, Bool-cases, replicate,
  subst,
}
use asyn_log_system.LogSystem.ThreadPool.{
  Thread, waiting, running, returned, Queue, Pool, init, empty, take_front, work, enqueue,
  begin_join, Moves, here, there, enqueues, moves, joins, Reach, start, next,
}
use asyn_log_system.LogSystem.ThreadPool.Steps.{
  count, count_running, is_returned, all_returned, some_returned, IsAccounted, Worked, returns,
  takes, finishes, work-Worked, Moves-Kept, count-append,
}

module _ {ℓ} {A : Type ℓ} where
  waiting_only :
      (n : ℕ) (f : A → Bool)
      → (count_running f (replicate n waiting) ≡ 0)
        × (some_returned {A = A} (replicate n waiting) ≡ false)
        × (length {A = Thread A} (replicate n waiting) ≡ n)
  waiting_only zero f = (refl, refl, refl)
  waiting_only (suc n) f =
      let (none_runs, none_returned, size) = waiting_only n f in
      (none_runs, none_returned, omega (arith, size))

  init-IsAccounted : (n : ℕ) → IsAccounted {A = A} n (init n).workers (init n).queue []
  unfolding init
  init-IsAccounted n = record {
    size = (waiting_only n (λ t. true)).2;
    order = refl;
    conserved = λ f. omega (arith, (waiting_only n f).0);
    drained = λ r. cc (r, (waiting_only n (λ t. true)).1);
  }

  enqueue-IsAccounted :
      {n : ℕ} {p p' : Pool A} {sent : List A} (t : A)
      → enqueue t p ≡ ok p'
      → IsAccounted n p.workers p.queue sent
      → IsAccounted n p'.workers p'.queue (sent ++ t ∷ [])
  unfolding enqueue
  enqueue-IsAccounted {n} {p} {p'} {sent} t e v = elim (Bool-cases p.queue.stop) [
    | inl over ↦ cc (rw over at e)
    | inr on ↦
        subst (λ p'. IsAccounted n p'.workers p'.queue (sent ++ t ∷ [])) (ok_injective (rw on at e))
          (record {
            size = v.size;
            order = rw (← append_assoc, v.order) refl;
            conserved = v.conserved;
            drained = λ r. cc (on, (v.drained r).0);
          })
  ]

  Moves-IsAccounted :
      {n : ℕ} {ws ws' : List (Thread A)} {q q' : Queue A} {sent : List A}
      → Moves ws q ws' q'
      → IsAccounted n ws q sent
      → IsAccounted n ws' q' sent
  Moves-IsAccounted m v =
      let k = Moves-Kept m in
      record {
        size = k.size ∙ v.size;
        order = k.order ∙ v.order;
        conserved = λ f. omega (arith, k.counts f, v.conserved f);
        drained =
            λ r. elim (k.returns r) [ inl before ↦ k.drained (v.drained before) | inr now ↦ now ];
      }

  -- In every reachable state of the pool, tasks are taken in the order in which they were
  -- enqueued, none twice and none left out; as many of them as were taken are run or have come to
  -- their end; and a worker that has returned left an empty queue that stays empty.
  pub Reach-IsAccounted :
      {n : ℕ} {p : Pool A} {sent : List A} → Reach n p sent → IsAccounted n p.workers p.queue sent
  unfolding begin_join
  Reach-IsAccounted start = init-IsAccounted _
  Reach-IsAccounted (next r (enqueues t e)) = enqueue-IsAccounted t e (Reach-IsAccounted r)
  Reach-IsAccounted (next r (moves m)) = rw append-nil (Moves-IsAccounted m (Reach-IsAccounted r))
  Reach-IsAccounted (next r joins) =
      let v = Reach-IsAccounted r in
      rw append-nil (record {
        size = v.size;
        order = v.order;
        conserved = v.conserved;
        drained = λ r. (refl, (v.drained r).1);
      })

  all→some :
      (ws : List (Thread A)) → 1 ≤ length ws → all_returned ws ≡ true → some_returned ws ≡ true
  all→some [] h e = absurd (omega arith)
  all→some (w ∷ ws) h e = ground arith

  no_running :
      (f : A → Bool) (ws : List (Thread A)) → all_returned ws ≡ true → count_running f ws ≡ 0
  no_running f [] e = refl
  no_running f (returned ∷ ws) e = no_running f ws e
  no_running f (waiting ∷ ws) e = cc
  no_running f (running t ∷ ws) e = cc

  -- In a reachable state of a pool of one thread or more in which all workers have returned, the
  -- destructor was called, and every task enqueued has come to its end, as often as it was
  -- enqueued.
  pub all_returned_lem :
      {n : ℕ} {p : Pool A} {sent : List A}
      → Reach n p sent
      → 1 ≤ n
      → all_returned p.workers ≡ true
      → (p.queue.stop ≡ true) × ((f : A → Bool) → count f p.queue.finished ≡ count f sent)
  all_returned_lem {n} {p} r h e =
      let v = Reach-IsAccounted r in
      let (s, none_left) = v.drained (all→some p.workers (omega (arith, v.size)) e) in
      (
        s,
        λ f. omega (
          arith,
          v.conserved f,
          no_running f p.workers e,
          ap (count f) v.order,
          ap (count f) none_left,
          count-append f p.queue.taken p.queue.tasks,
        ),
      )

  -- How many steps a worker still has to make once `stop` is set.
  abbrev pub steps_of : Thread A → ℕ
  steps_of waiting = 1
  steps_of (running t) = 2
  steps_of returned = 0

  abbrev pub steps_left : List (Thread A) → Queue A → ℕ
  steps_left [] q = 2 * length q.tasks
  steps_left (w ∷ ws) q = steps_of w + steps_left ws q

  -- `k` steps of the workers.
  pub data Run : ℕ → List (Thread A) → Queue A → List (Thread A) → Queue A → Type ℓ where
    done : {ws : List (Thread A)} {q : Queue A} → Run 0 ws q ws q
    step :
        {k : ℕ} {ws ws' ws'' : List (Thread A)} {q q' q'' : Queue A}
        → Moves ws q ws' q'
        → Run k ws' q' ws'' q''
        → Run (suc k) ws q ws'' q''

  steps_left-tasks :
      (ws : List (Thread A)) (q q' : Queue A)
      → steps_left ws q + 2 * length q'.tasks ≡ steps_left ws q' + 2 * length q.tasks
  steps_left-tasks [] q q' = omega arith
  steps_left-tasks (w ∷ ws) q q' = omega (arith, steps_left-tasks ws q q')

  steps_left-Worked :
      {w w' : Thread A} {q q' : Queue A} (ws : List (Thread A))
      → Worked q w w' q'
      → steps_left (w ∷ ws) q ≡ suc (steps_left (w' ∷ ws) q')
  steps_left-Worked {q = q} ws (returns s e) = omega arith
  steps_left-Worked {q = q} ws (takes t ts e) =
      let q' : Queue A = record q { tasks = ts; taken = q.taken ++ t ∷ [] } in
      let size : length q.tasks ≡ length (t ∷ ts) = ap length e in
      omega (arith, steps_left-tasks ws q q', size)
  steps_left-Worked {q = q} ws (finishes t) =
      omega (arith, steps_left-tasks ws q (record q { finished = q.finished ++ t ∷ [] }))

  steps_left-Moves :
      {ws ws' : List (Thread A)} {q q' : Queue A}
      → Moves ws q ws' q'
      → steps_left ws q ≡ suc (steps_left ws' q')
  steps_left-Moves (here {ws = ws} e) = steps_left-Worked ws (work-Worked _ _ _ e)
  steps_left-Moves (there {w = w} m) = omega (arith, steps_left-Moves m)

  fetch-some :
      (ts : List A) (q : Queue A)
      → q.tasks ≡ ts
      → q.stop ≡ true
      → (w' : Thread A) × (q' : Queue A) × (work waiting q ≡ some (w', q'))
  unfolding work take_front empty
  fetch-some [] q e s = (returned, q, rw (s, e) refl)
  fetch-some (t ∷ ts) q e s =
      (running t, record q { tasks = ts; taken = q.taken ++ t ∷ [] }, rw (s, e) refl)

  -- After `stop`, a worker that has not returned can make a step.
  work-some :
      (w : Thread A) (q : Queue A)
      → q.stop ≡ true
      → is_returned w ≡ false
      → (w' : Thread A) × (q' : Queue A) × (work w q ≡ some (w', q'))
  unfolding work
  work-some returned q s e = cc
  work-some (running t) q s e = (_, _, refl)
  work-some waiting q s e = fetch-some q.tasks q refl s

  move_after_stop :
      (ws : List (Thread A)) (q : Queue A)
      → q.stop ≡ true
      → all_returned ws ≡ false
      → (ws' : List (Thread A)) × (q' : Queue A) × Moves ws q ws' q'
  move_after_stop [] q s e = cc
  move_after_stop (w ∷ ws) q s e = elim (Bool-cases (is_returned w)) [
    | inr here_is ↦ let (w', q', m) = work-some w q s here_is in (w' ∷ ws, q', here m)
    | inl gone ↦ let (ws', q', m) = move_after_stop ws q s (ground arith) in (w ∷ ws', q', there m)
  ]

  Run-steps_left :
      {k : ℕ} {ws ws' : List (Thread A)} {q q' : Queue A}
      → Run k ws q ws' q'
      → (steps_left ws q ≡ k + steps_left ws' q') × (q'.stop ≡ q.stop)
  Run-steps_left done = (omega arith, refl)
  Run-steps_left (step m r) =
      let (n, s) = Run-steps_left r in
      (omega (arith, n, steps_left-Moves m), s ∙ (Moves-Kept m).stop)

  -- Once stop is set, the workers make at most as many steps as the running tasks, the queued ones
  -- and the waiting workers have left, in whatever order they move; and as long as a worker has
  -- not returned, one of them can make a step.
  pub workers_finish :
      (k : ℕ) (ws ws' : List (Thread A)) (q q' : Queue A)
      → q.stop ≡ true
      → Run k ws q ws' q'
      → (k ≤ steps_left ws q)
        × ((all_returned ws' ≡ true)
            ⊎ ((ws'' : List (Thread A)) × (q'' : Queue A) × Moves ws' q' ws'' q''))
  workers_finish k ws ws' q q' s r =
      let (n, s') = Run-steps_left r in
      (
        omega (arith, n),
        elim (Bool-cases (all_returned ws')) [
          | inl all ↦ inl all
          | inr more ↦ inr (move_after_stop ws' q' (s' ∙ s) more)
        ],
      )
