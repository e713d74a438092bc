-- ===== src/LogSystem/ThreadPool/Tests.antt =====
-- A pool of two threads with two tasks, and the theorems on it.
use asyn_log_system.Prelude.{ℕ, ◌≤◌, ◌≡◌, refl, ◌⊎◌, List, [], ◌∷◌, Bool, true, false, arith}
use asyn_log_system.LogSystem.ThreadPool.{
  Thread, waiting, returned, Queue, Pool, init, enqueue, begin_join, work, take_front, empty, Moves,
  here, there, enqueues, moves, joins, Reach, start, next,
}
use asyn_log_system.LogSystem.ThreadPool.Steps.{IsAccounted, count, all_returned}
use asyn_log_system.LogSystem.ThreadPool.Join.{
  Reach-IsAccounted, all_returned_lem, done, step, workers_finish,
}

abbrev queue_of : Bool → List ℕ → List ℕ → List ℕ → Queue ℕ
queue_of stop tasks taken finished = record {
  stop = stop;
  tasks = tasks;
  taken = taken;
  finished = finished;
}

abbrev two_tasks : Pool ℕ
two_tasks = record { workers = waiting ∷ waiting ∷ []; queue = queue_of false (10 ∷ 20 ∷ []) [] [] }

two_tasks-Reach : Reach 2 two_tasks (10 ∷ 20 ∷ [])
unfolding init enqueue
two_tasks-Reach = next (next start (enqueues 10 refl)) (enqueues 20 refl)

Reach-IsAccounted_example : IsAccounted 2 two_tasks.workers two_tasks.queue (10 ∷ 20 ∷ [])
Reach-IsAccounted_example = Reach-IsAccounted two_tasks-Reach

-- The first worker runs the first task, the second one the second task, which ends first.
abbrev all_done : Pool ℕ
all_done = record {
  workers = returned ∷ returned ∷ [];
  queue = queue_of true [] (10 ∷ 20 ∷ []) (20 ∷ 10 ∷ []);
}

all_done-Reach : Reach 2 all_done (10 ∷ 20 ∷ [])
unfolding work take_front empty begin_join
all_done-Reach =
    next
      (next
        (next
          (next
            (next (next (next two_tasks-Reach (moves (here refl))) (moves (there (here refl))))
              joins)
            (moves (there (here refl))))
          (moves (here refl)))
        (moves (here refl)))
      (moves (there (here refl)))

all_returned_lem_example :
    (all_done.queue.stop ≡ true)
    × ((f : ℕ → Bool) → count f all_done.queue.finished ≡ count f (10 ∷ 20 ∷ []))
all_returned_lem_example = all_returned_lem all_done-Reach (omega arith) refl

workers_finish_example :
    (2 ≤ 4)
    × ((all_returned {A = ℕ} (waiting ∷ waiting ∷ []) ≡ true)
        ⊎ ((ws : List (Thread ℕ)) × (q : Queue ℕ) × Moves
              (waiting ∷ waiting ∷ [])
              (queue_of true [] (10 ∷ []) (10 ∷ []))
              ws
              q))
unfolding work take_front empty
workers_finish_example =
    workers_finish 2 (waiting ∷ waiting ∷ []) (waiting ∷ waiting ∷ [])
      (queue_of true (10 ∷ []) [] []) (queue_of true [] (10 ∷ []) (10 ∷ [])) refl
      (step (here refl) (step (here refl) done))
