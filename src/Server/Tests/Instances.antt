-- ===== src/Server/Tests/Instances.antt =====
-- The theorem on GetInstance where two threads have passed the first test.
use asyn_log_system.Prelude.{◌⊎◌, some, ◌≡◌, ◌≤◌, refl}
use asyn_log_system.Server.Config.Instance.{
  System, Reach, initial, moved, start, step, advance, choose, at_lock, returned,
}
use asyn_log_system.Server.Config.Instance.Once.{advance-once, Moves}

abbrev two_at_lock : System
two_at_lock = moved 1 at_lock initial.shared (moved 0 at_lock initial.shared initial)

two_at_lock-Reach : Reach two_at_lock
unfolding advance choose
two_at_lock-Reach =
    step (moved 0 at_lock initial.shared initial) 1 at_lock initial.shared
      (step initial 0 at_lock initial.shared start refl) refl

advance-once_example :
    (two_at_lock.shared.made ≤ 1)
    × (((two_at_lock.threads 0 ≡ returned (some 0)) × (two_at_lock.shared.instance_ ≡ some 0))
        ⊎ Moves two_at_lock)
advance-once_example = advance-once two_at_lock 0 two_at_lock-Reach
