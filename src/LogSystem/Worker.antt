-- ===== src/LogSystem/Worker.antt =====
-- logSystem/logsCode/AsyncWorker.hpp: the double-buffered worker. `Push` and the swap are critical
-- sections of one mutex, so each is one step; the consumer's other actions are steps of their own. A wait
-- is a guard here, so that a thread may go on whenever its condition is true: these are all steps
-- that there can be, and more than the notifications bring about. The consumer's wait with its
-- notifications is in Worker/Wait.
pub mod Invariant
pub mod Shutdown
pub mod Producers
pub mod Refine
pub mod Open
pub mod Wait
pub mod Pushing
pub mod Turns
pub mod Delivered
mod Tests
use asyn_log_system.Prelude.{
  ℕ, ◌≡◌, ◌≤◌, Bool, true, false, not, ◌&&◌, ◌||◌, List, [], ◌∷◌, ◌++◌, length, Option, none, some,
  zero, suc, leb, if◌then◌else◌, Result, ok, err, ◌>>=◌,
}
use asyn_log_system.LogSystem.Config.{Config}
use asyn_log_system.LogSystem.Buffer
use asyn_log_system.LogSystem.Buffer.{
  Fault, Buffer, max_size, writeable_size, readable_size, read, is_empty,
}

pub data AsyncType : Type 0 where
  async_safe async_unsafe : AsyncType

-- Where the consumer thread stands in the loop of `ThreadEntry`.
pub data Pc : Type 0 where
  waiting : Pc  -- at `cond_consumer_.wait`
  flushing : Pc  -- behind the swap, the mutex released
  checking_stop : Pc  -- before `stop_` is read at the end of the round
  checking_empty : Pc  -- `stop_` was true; before `buffer_productor_.IsEmpty()`
  returned : Pc

-- `mylog::AsyncWorker`, with what the callback has been given so far.
pub record Worker : Type 0 where
  pub async_type : AsyncType
  pub stop : Bool
  pub productor : Buffer
  pub consumer : Buffer
  pub pc : Pc
  pub delivered : List (List ℕ)

-- Why a push does not go through: the caller waits, or an exception leaves `Push`.
pub data Refusal : Type 0 where
  would_block : Refusal
  fault : Fault → Refusal

-- The constructor, once the thread has reached its wait.
unfoldable pub init : Config → AsyncType → Worker
init c t = record {
  async_type = t;
  stop = false;
  productor = Buffer.init c;
  consumer = Buffer.init c;
  pc = waiting;
  delivered = [];
}

-- The predicate of `cond_productor_.wait`, with the test around it. Which of several waiting
-- producers `notify_one` wakes is not said here.
unfoldable pub can_push : ℕ → Worker → Bool
can_push len w = elim w.async_type [
  | async_safe ↦ leb len (writeable_size w.productor)
  | async_unsafe ↦ true
]

unfoldable pub lift_fault : Result Fault Buffer → Result Refusal Buffer
lift_fault (ok b) = ok b
lift_fault (err e) = err (fault e)

-- `Push(data, len)`.
unfoldable pub push : Config → List ℕ → Worker → Result Refusal Worker
unfolding can_push lift_fault
push c ds w =
    if can_push (length ds) w
    then (do b ← lift_fault (Buffer.push c ds w.productor); ok (record w { productor = b }))
    else err would_block

-- `stop_ = true` in `Stop()`, for which the mutex is not held. The notification after it is
-- `notify` in Worker/Wait; what follows waits for the consumer thread.
unfoldable pub request_stop : Worker → Worker
request_stop w = record w { stop = true }

unfoldable pub swap_buffers : Worker → Worker
swap_buffers w =
    let (consumer, productor) = Buffer.swap w.consumer w.productor in
    record w { consumer = consumer; productor = productor; pc = flushing }

-- `if (!buffer_consumer_.IsEmpty()) { callback_(buffer_consumer_); buffer_consumer_.Reset(); }`
unfoldable pub flush_consumer : Worker → Worker
flush_consumer w = if is_empty w.consumer then record w { pc = checking_stop } else record w {
  delivered = w.delivered ++ (read w.consumer (readable_size w.consumer) ∷ []);
  consumer = Buffer.reset w.consumer;
  pc = checking_stop;
}

unfoldable pub consume_at : Pc → Worker → Option Worker
consume_at waiting w = if w.stop || not (is_empty w.productor) then some (swap_buffers w) else none
consume_at flushing w = some (flush_consumer w)
consume_at checking_stop w = some (record w { pc = if w.stop then checking_empty else waiting })
consume_at checking_empty w =
    some (record w { pc = if is_empty w.productor then returned else waiting })
consume_at returned w = none

-- One step of `ThreadEntry`; `none` while it waits and after it has returned.
unfoldable pub consume : Worker → Option Worker
unfolding consume_at
consume w = consume_at w.pc w

or_stay : Worker → Option Worker → Worker
or_stay w none = w
or_stay w (some w') = w'

-- The consumer alone, for `n` steps or until it waits.
unfoldable pub drain : ℕ → Worker → Worker
unfolding or_stay
drain zero w = w
drain (suc n) w = drain n (or_stay w (consume w))

-- One step of some thread; the list is what the step pushed.
pub data Step (c : Config) (w : Worker) : List ℕ → Worker → Type 0 where
  pushes : (ds : List ℕ) {w' : Worker} → length ds ≤ max_size → push c ds w ≡ ok w' → Step c w ds w'
  consumes : {w' : Worker} → consume w ≡ some w' → Step c w [] w'
  stops : {w' : Worker} → w' ≡ request_stop w → Step c w [] w'

-- Runs from the constructor on, with all that was pushed.
pub data Reach (c : Config) (t : AsyncType) : Worker → List ℕ → Type 0 where
  start : Reach c t (init c t) []
  next :
      {w w' : Worker} {sent ds : List ℕ}
      → Reach c t w sent
      → Step c w ds w'
      → Reach c t w' (sent ++ ds)
