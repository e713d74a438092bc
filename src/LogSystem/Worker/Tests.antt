-- ===== src/LogSystem/Worker/Tests.antt =====
-- Runs of the worker, and its theorems at concrete inputs.
use asyn_log_system.LogSystem.Worker.Turns.{take_turns-Ends, IsLost, stop_after}
use asyn_log_system.LogSystem.Worker.Pushing.{Turn, take_turns}
use asyn_log_system.LogSystem.Worker.Wait.{
  Live, live, dozing, Runs, begin, after, move_acts, stop_acts, Ends, Hangs, notify, notify-Ends,
  move, move_at, go_on, doze, set_stop,
}
use asyn_log_system.Prelude.{◌≢◌}
use asyn_log_system.Prelude.{
  ℕ, ◌-◌, ◌↔◌, ◌⊎◌, none, ◌<◌, ◌≡◌, refl, true, false, List, [], ◌∷◌, length, concat, ok, err,
  arith,
}
use asyn_log_system.LogSystem.Config.{Config}
use asyn_log_system.LogSystem.Buffer
use asyn_log_system.LogSystem.Buffer.{
  Buffer, contents, is_empty, writeable_size, to_be_enough, resize, overwrite,
}
use asyn_log_system.LogSystem.Buffer.Contents.{Pushed, push-Pushed, push_total}
use asyn_log_system.LogSystem.Buffer.Growth.{length-push}
use asyn_log_system.LogSystem.Worker.{
  async_safe, waiting, checking_empty, returned, Worker, pushes, consumes, stops, Reach, start,
  next, init, can_push, push, would_block, request_stop, consume, consume_at, swap_buffers,
  flush_consumer, drain, lift_fault,
}
use asyn_log_system.LogSystem.Worker.Invariant.{Inv, Reach-Inv}
use asyn_log_system.LogSystem.Worker.Shutdown.{consume-none, consume_to_returned}
use asyn_log_system.LogSystem.Worker.Refine.{Acts, view, Step-Acts}
use asyn_log_system.LogSystem.Worker.Producers.{drain_oversized, push_exact_fit}

abbrev small : Config
small = record {
  buffer_size = 4;
  threshold = 8;
  linear_growth = 4;
  flush_log = 0;
  backup_addr = [];
  backup_port = 0;
  thread_count = 1;
}

-- A worker of the safe type that holds three bytes, the consumer at its wait.
abbrev three : Worker
three = record {
  async_type = async_safe;
  stop = false;
  productor = record { storage = 1 ∷ 2 ∷ 3 ∷ 0 ∷ []; write_pos = 3; read_pos = 0 };
  consumer = record { storage = 0 ∷ 0 ∷ 0 ∷ 0 ∷ []; write_pos = 0; read_pos = 0 };
  pc = waiting;
  delivered = [];
}

abbrev three_sent : List ℕ
three_sent = 1 ∷ 2 ∷ 3 ∷ []

three-Reach : Reach small async_safe three three_sent
unfolding init push Buffer.push can_push lift_fault Buffer.init to_be_enough resize overwrite
three-Reach = next start (pushes three_sent (omega arith) refl)

three-Inv : Inv small three three_sent
three-Inv = Reach-Inv {t = async_safe} (omega arith) three-Reach

-- The same worker after `Stop`, before its last step.
abbrev last_look : Worker
last_look = record {
  async_type = async_safe;
  stop = true;
  productor = record { storage = 0 ∷ 0 ∷ 0 ∷ 0 ∷ []; write_pos = 0; read_pos = 0 };
  consumer = record { storage = 1 ∷ 2 ∷ 3 ∷ 0 ∷ []; write_pos = 0; read_pos = 0 };
  pc = checking_empty;
  delivered = three_sent ∷ [];
}

stopped-Reach : Reach small async_safe (record three { stop = true }) three_sent
unfolding request_stop
stopped-Reach = next three-Reach (stops refl)

last_look-Reach : Reach small async_safe last_look three_sent
unfolding consume consume_at swap_buffers flush_consumer Buffer.swap Buffer.reset is_empty
last_look-Reach = next (next (next stopped-Reach (consumes refl)) (consumes refl)) (consumes refl)

push-Pushed_example :
    (Buffer.push small (9 ∷ []) three.productor ≡ err Buffer.length_error)
    ⊎ ((b : Buffer) × (Buffer.push small (9 ∷ []) three.productor ≡ ok b)
        × Pushed (9 ∷ []) three.productor b)
push-Pushed_example =
    push-Pushed small (9 ∷ []) three.productor (omega arith) three-Inv.productor_valid

push_total_example :
    (b : Buffer) × (Buffer.push small (9 ∷ []) three.productor ≡ ok b)
    × Pushed (9 ∷ []) three.productor b
push_total_example =
    push_total small (9 ∷ []) three.productor (omega arith) (omega arith) three-Inv.productor_valid

-- The byte fills the space left, so the storage is doubled.
abbrev doubled : Buffer
doubled = record { storage = 1 ∷ 2 ∷ 3 ∷ 9 ∷ 0 ∷ 0 ∷ 0 ∷ 0 ∷ []; write_pos = 4; read_pos = 0 }

length-push_example :
    ◌↔◌ (8 ≡ length three.productor.storage) (1 < length three.productor.storage - 3)
unfolding Buffer.push to_be_enough resize overwrite
length-push_example =
    length-push small (9 ∷ []) three.productor doubled (omega arith) (omega arith) (omega arith)
      (omega arith) three-Inv.productor_valid refl

Reach-Inv_example : Inv small three three_sent
Reach-Inv_example = Reach-Inv {t = async_safe} (omega arith) three-Reach

consume-none_example : (consume three ≡ none) ↔ (
    (three.pc ≡ returned)
    ⊎ ((three.pc ≡ waiting) × (three.stop ≡ false) × (is_empty three.productor ≡ true)))
consume-none_example = consume-none three

consume_to_returned_example :
    (concat (record last_look { pc = returned }).delivered ≡ three_sent) × (true ≡ true)
unfolding consume consume_at is_empty
consume_to_returned_example =
    consume_to_returned last_look (record last_look { pc = returned }) three_sent (omega arith)
      last_look-Reach refl refl

drain_oversized_example : push small (1 ∷ 2 ∷ 3 ∷ 4 ∷ 5 ∷ []) (drain 9 three) ≡ err would_block
drain_oversized_example =
    drain_oversized 9 (1 ∷ 2 ∷ 3 ∷ 4 ∷ 5 ∷ []) three-Inv refl (omega arith) (omega arith)

push_exact_fit_example : (can_push 1 three ≡ true) × (4 < 8)
unfolding push Buffer.push can_push lift_fault to_be_enough resize overwrite
push_exact_fit_example =
    push_exact_fit {w' = record three { productor = doubled }} (9 ∷ []) three-Inv (omega arith)
      (omega arith) (omega arith) refl refl refl

-- Three messages, with steps of the consumer before the last two.
abbrev three_turns : List Turn
three_turns = (0, 1 ∷ 2 ∷ 3 ∷ []) ∷ (1, 4 ∷ 5 ∷ []) ∷ (2, 6 ∷ 7 ∷ 8 ∷ 9 ∷ []) ∷ []

take_turns-Ends_example :
    (l : Live) × (take_turns small three_turns (live (init small async_safe)) ≡ ok l)
    × (IsLost 1 0 l ⊎ Ends 7 (stop_after 1 0 l) (1 ∷ 2 ∷ 3 ∷ 4 ∷ 5 ∷ 6 ∷ 7 ∷ 8 ∷ 9 ∷ []))
take_turns-Ends_example =
    take_turns-Ends small async_safe three_turns 1 0 (omega arith)
      (omega arith, (omega arith, (omega arith, tt)))

-- Nothing was pushed, and stop_ is set behind the consumer's test.
abbrev missed : Live
missed = record { worker = request_stop (init small async_safe); sleep = dozing }

missed-Runs : Runs small async_safe missed []
unfolding init Buffer.init is_empty consume consume_at move move_at go_on doze set_stop
missed-Runs = after (after begin (move_acts refl)) stop_acts

notify-Ends_example :
    ((missed.sleep ≡ dozing) × Hangs (notify missed))
    ⊎ ((missed.sleep ≢ dozing) × Ends 7 (notify missed) [])
unfolding request_stop init
notify-Ends_example = notify-Ends missed [] (omega arith) missed-Runs refl (λ e. cc e)

Step-Acts_example : Acts (view three) [] (view (swap_buffers three))
unfolding consume consume_at swap_buffers is_empty
Step-Acts_example =
    Step-Acts {c = small} three (swap_buffers three) three_sent [] (omega arith) three-Reach
      (consumes refl)
