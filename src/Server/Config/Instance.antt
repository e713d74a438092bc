-- ===== src/Server/Config/Instance.antt =====
-- src/server/Config.hpp, `GetInstance`: threads that ask for the one object at the same time. Their
-- steps interleave; each step reads or writes `instance_` once, as on a machine that keeps the
-- order of accesses. `new Config()` comes to its end: an exception of it ends the program.
pub mod Kept
pub mod Once
use asyn_log_system.Prelude.{ℕ, ◌+◌, ◌≡◌, Option, none, some, ◌==◌, if◌then◌else◌}

-- Where a thread stands: before the test, at the lock, behind it, before `new Config()`, before the
-- lock is given back, before `return`, and behind it with what was returned.
pub data Place : Type 0 where
  at_test at_lock locked at_new leaving at_return : Place
  returned : Option ℕ → Place

-- `instance_`, as the number of the object, with how many were made, and the thread that holds
-- `mutex_`.
pub record Shared : Type 0 where
  pub instance_ : Option ℕ
  pub made : ℕ
  pub owner : Option ℕ

-- The tests `instance_ == nullptr`.
unfoldable pub choose : Option ℕ → Place → Place → Place
choose none null_ other = null_
choose (some x) null_ other = other

-- Taking the lock, which waits while a thread holds it.
unfoldable pub take_lock : Option ℕ → ℕ → Shared → Option (Place × Shared)
take_lock none i s = some (locked, record s { owner = some i })
take_lock (some k) i s = none

-- One step of thread `i`; `none` while it waits and behind its end.
unfoldable pub advance : ℕ → Place → Shared → Option (Place × Shared)
unfolding choose take_lock
advance i at_test s = some (choose s.instance_ at_lock at_return, s)
advance i at_lock s = take_lock s.owner i s
advance i locked s = some (choose s.instance_ at_new leaving, s)
advance i at_new s = some (leaving, record s { instance_ = some s.made; made = s.made + 1 })
advance i leaving s = some (at_return, record s { owner = none })
advance i at_return s = some (returned s.instance_, s)
advance i (returned x) s = none

pub record System : Type 0 where
  pub shared : Shared
  pub threads : ℕ → Place

-- Before any thread has called.
abbrev pub initial : System
initial = record {
  shared = record { instance_ = none; made = 0; owner = none };
  threads = λ i. at_test;
}

abbrev pub moved : ℕ → Place → Shared → System → System
moved i p s y = record { shared = s; threads = λ k. if i == k then p else y.threads k }

pub data Reach : System → Type 0 where
  start : Reach initial
  step :
      (y : System) (i : ℕ) (p : Place) (s : Shared)
      → Reach y
      → advance i (y.threads i) y.shared ≡ some (p, s)
      → Reach (moved i p s y)
