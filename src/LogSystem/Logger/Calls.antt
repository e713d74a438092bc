-- ===== src/LogSystem/Logger/Calls.antt =====
-- logSystem/logsCode/AsyncLogger.hpp: the calls of the callback that a whole run of the worker makes.
use asyn_log_system.LogSystem.Buffer.{max_size}
use asyn_log_system.LogSystem.Worker.Delivered.{Reach-drain, Reach-NoneEmpty, length-NoneEmpty}
use asyn_log_system.LogSystem.Worker.Shutdown.{drain-Finishes}
use asyn_log_system.Prelude.Text.{Text}
use asyn_log_system.LogSystem.Worker.{returned, Reach, drain, Worker, AsyncType}
use asyn_log_system.LogSystem.Flush.Names.{text_of, Tm}
use asyn_log_system.LogSystem.Config.{Config}
use asyn_log_system.Prelude.{
  refl, ◌≢◌, ap, [], arith, suc, true, ◌≤◌, ◌∷◌, length, map, ◌≡◌, List, ℕ,
}

-- The calls of the callback, each with its local time.
abbrev pub stamped : (ℕ → Tm) → ℕ → List Text → List (Tm × Text)
stamped at i [] = []
stamped at i (s ∷ ss) = (at i, s) ∷ stamped at (suc i) ss

pub text_of-stamped : (at : ℕ → Tm) (i : ℕ) (ss : List Text) → map text_of (stamped at i ss) ≡ ss
text_of-stamped at i [] = refl
text_of-stamped at i (s ∷ ss) = ap (◌∷◌ s) (text_of-stamped at (suc i) ss)

pub length-stamped : (at : ℕ → Tm) (i : ℕ) (ss : List Text) → length (stamped at i ss) ≡ length ss
length-stamped at i [] = refl
length-stamped at i (s ∷ ss) = omega (arith, length-stamped at (suc i) ss)

-- What the callback has been given, each call with its local time.
abbrev pub calls_of : (ℕ → Tm) → Worker → List (Tm × Text)
calls_of at w = stamped at 0 w.delivered

-- There are no more calls than bytes.
pub length-calls_of :
    {c : Config} {t : AsyncType} (at : ℕ → Tm) (w : Worker) (sent : Text)
    → c.buffer_size ≤ max_size
    → Reach c t w sent
    → w.stop ≡ true
    → w.pc ≢ returned
    → length (calls_of at (drain 7 w)) ≤ length sent
length-calls_of at w sent small r stopped p =
    let end : Worker = drain 7 w in
    let (gone, all) = drain-Finishes w sent small r stopped p in
    omega (
      arith,
      length-stamped at 0 end.delivered,
      length-NoneEmpty end.delivered (Reach-NoneEmpty small (Reach-drain 7 r)),
      ap length all,
    )
