-- ===== src/LogSystem/ThreadPool.antt =====
-- logSystem/logsCode/ThreadPoll.hpp: the thread pool. Each critical section of `queue_mutex` is one
-- step; running a task is a step of its own, at the end of the task. Exceptions of a task stay in
-- its future.
pub mod Steps
pub mod Join
mod Tests
use asyn_log_system.Prelude.{
  ℕ, zero, suc, ◌+◌, ◌≡◌, Bool, true, false, not, ◌&&◌, ◌||◌, List, [], ◌∷◌, ◌++◌, Option, none,
  some, if◌then◌else◌, Result, ok, err, replicate,
}

-- Why `enqueue` throws.
pub data Closed : Type 0 where
  stopped : Closed

module _ {ℓ} (A : Type ℓ) where
  -- Where a worker stands in its loop.
  pub data Thread : Type ℓ where
    waiting : Thread
    running : A → Thread
    returned : Thread

  -- What the mutex guards, with the tasks that were taken out and those that came to their end.
  pub record Queue : Type ℓ where
    pub stop : Bool
    pub tasks : List A
    pub taken : List A
    pub finished : List A

  pub record Pool : Type ℓ where
    pub workers : List Thread
    pub queue : Queue

module _ {ℓ} {A : Type ℓ} where
  -- `ThreadPool(threads)`, once every thread has reached its wait.
  unfoldable pub init : ℕ → Pool A
  init threads = record {
    workers = replicate threads waiting;
    queue = record { stop = false; tasks = []; taken = []; finished = [] };
  }

  unfoldable pub empty : List A → Bool
  empty [] = true
  empty (t ∷ ts) = false

  -- `task = move(tasks.front()); tasks.pop();`
  unfoldable pub take_front : List A → Queue A → Option (Thread A × Queue A)
  take_front [] q = none
  take_front (t ∷ ts) q = some (running t, record q { tasks = ts; taken = q.taken ++ t ∷ [] })

  -- One step of a worker; `none` while it waits and after it has returned.
  unfoldable pub work : Thread A → Queue A → Option (Thread A × Queue A)
  work waiting q =
      if q.stop || not (empty q.tasks)
      then if q.stop && empty q.tasks then some (returned, q) else take_front q.tasks q
      else none
  work (running t) q = some (waiting, record q { finished = q.finished ++ t ∷ [] })
  work returned q = none

  -- `enqueue`, with the new task.
  unfoldable pub enqueue : A → Pool A → Result Closed (Pool A)
  enqueue t p =
      if p.queue.stop
      then err stopped
      else ok (record p { queue = record p.queue { tasks = p.queue.tasks ++ t ∷ [] } })

  -- The critical section of `~ThreadPool()`; the joins wait for the workers.
  unfoldable pub begin_join : Pool A → Pool A
  begin_join p = record p { queue = record p.queue { stop = true } }

  -- A step of one of the workers.
  pub data Moves : List (Thread A) → Queue A → List (Thread A) → Queue A → Type ℓ where
    here :
        {w w' : Thread A} {ws : List (Thread A)} {q q' : Queue A}
        → work w q ≡ some (w', q')
        → Moves (w ∷ ws) q (w' ∷ ws) q'
    there :
        {w : Thread A} {ws ws' : List (Thread A)} {q q' : Queue A}
        → Moves ws q ws' q'
        → Moves (w ∷ ws) q (w ∷ ws') q'

  -- A step of the pool; the list is what it enqueued.
  pub data Step (p : Pool A) : List A → Pool A → Type ℓ where
    enqueues : (t : A) {p' : Pool A} → enqueue t p ≡ ok p' → Step p (t ∷ []) p'
    moves :
        {ws : List (Thread A)} {q : Queue A}
        → Moves p.workers p.queue ws q
        → Step p [] (record { workers = ws; queue = q })
    joins : Step p [] (begin_join p)

  -- Runs of a pool with `n` threads, with all that was enqueued.
  pub data Reach (n : ℕ) : Pool A → List A → Type ℓ where
    start : Reach n (init n) []
    next :
        {p p' : Pool A} {sent ts : List A} → Reach n p sent → Step p ts p' → Reach n p' (sent ++ ts)
