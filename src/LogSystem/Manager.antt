-- ===== src/LogSystem/Manager.antt =====
-- logSystem/logsCode/Manager.hpp: the table of loggers. A logger is a shared pointer.
use asyn_log_system.Prelude.{
  ◌≡◌, refl, ◌⊎◌, inl, inr, Bool, true, false, [], ◌∷◌, Option, none, some, if◌then◌else◌, arith,
  Option-cases, Bool-cases,
}
use asyn_log_system.Prelude.Text.{Text, codes, text_eq, text_eq_iff, text_eq_refl}
use asyn_log_system.Prelude.Table.{Table, find, assign, find-assign}

module _ {ℓ} {P : Type ℓ} (name : P → Text) where
  -- `LoggerManager`.
  pub record LoggerManager : Type ℓ where
    pub default_logger : P
    pub loggers : Table P

  -- `LoggerManager()`, with the logger that the builder gives.
  unfoldable pub start_manager : P → LoggerManager
  start_manager p = record { default_logger = p; loggers = (codes "default", p) ∷ [] }

  -- `GetLogger(name)`; `none` is a null pointer.
  unfoldable pub get_logger : Text → LoggerManager → Option P
  get_logger k m = find k m.loggers

  -- `LoggerExist(name)`.
  unfoldable pub logger_exist : Text → LoggerManager → Bool
  logger_exist k m = elim (find k m.loggers) [ none ↦ false | some p ↦ true ]

  insert_at : Option P → P → LoggerManager → LoggerManager
  insert_at none p m = record m { loggers = assign (name p) p m.loggers }
  insert_at (some q) p m = m

  -- `unordered_map::insert`, which keeps what is there.
  unfoldable pub insert_new : P → LoggerManager → LoggerManager
  unfolding insert_at
  insert_new p m = insert_at (find (name p) m.loggers) p m

  -- `AddLogger(logger)`. Between the test and the insertion the mutex is free: `between` is what
  -- other threads do to the manager in the meantime.
  unfoldable pub add_logger : (LoggerManager → LoggerManager) → P → LoggerManager → LoggerManager
  add_logger between p m = if logger_exist (name p) m then m else insert_new p (between m)

  abbrev or_else : Option P → Option P → Option P
  or_else none o = o
  or_else (some q) o = some q

  insert_new_lem :
      (p : P) (k : Text) (m : LoggerManager)
      → get_logger k (insert_new p m)
        ≡ or_else (get_logger k m) (if text_eq (name p) k then some p else none)
  unfolding get_logger insert_new insert_at
  insert_new_lem p k m = elim (Option-cases (find (name p) m.loggers)) [
    | inl e ↦ elim (Bool-cases (text_eq (name p) k)) [
      | inl same ↦
          let missing : find k m.loggers ≡ none = rw (← (text_eq_iff (name p) k).0 same) e in
          rw (e, find-assign, same, missing) refl
      | inr other ↦ rw (e, find-assign, other) (at_none (find k m.loggers))
    ]
    | inr (q, e) ↦ elim (Bool-cases (text_eq (name p) k)) [
      | inl same ↦
          let found : find k m.loggers ≡ some q = rw (← (text_eq_iff (name p) k).0 same) e in
          rw (e, found) refl
      | inr other ↦ rw (e, other) (at_none (find k m.loggers))
    ]
  ]
    where
      at_none : (o : Option P) → o ≡ or_else o none
      at_none none = refl
      at_none (some q) = refl

  logger_exist-some :
      (k : Text) (m : LoggerManager) → logger_exist k m ≡ true → (q : P) × (get_logger k m ≡ some q)
  unfolding logger_exist get_logger
  logger_exist-some k m e = elim (Option-cases (find k m.loggers)) [
    | inl missing ↦ absurd (ground arith)
    | inr found ↦ found
  ]

  pub insert_new-keeps :
      (p : P) (m : LoggerManager) (k : Text) (q : P)
      → get_logger k m ≡ some q
      → get_logger k (insert_new p m) ≡ some q
  insert_new-keeps p m k q e = rw (insert_new_lem p k m, e) refl

  insert_new-some :
      (p : P) (m : LoggerManager)
      → (r : P) × (get_logger (name p) (insert_new p m) ≡ some r)
        × ((r ≡ p) ⊎ (get_logger (name p) m ≡ some r))
  insert_new-some p m = elim (Option-cases (get_logger (name p) m)) [
    | inl new ↦ (p, rw (insert_new_lem p (name p) m, new, text_eq_refl (name p)) refl, inl refl)
    | inr (r, old) ↦ (r, rw (insert_new_lem p (name p) m, old) refl, inr old)
  ]

  -- Adding a logger never replaces one that is there, whatever loggers other threads add between
  -- the test and the insertion; afterwards its name has a logger, which is the new one or one that
  -- the name had before the insertion.
  pub add_logger_lem :
      (between : LoggerManager → LoggerManager) (p : P) (m : LoggerManager) (k : Text) (q : P)
      → ((k : Text) (q : P) → get_logger k m ≡ some q → get_logger k (between m) ≡ some q)
      → get_logger k m ≡ some q
      → let m' = add_logger between p m in
        (get_logger k m' ≡ some q)
        × (r : P) × (get_logger (name p) m' ≡ some r)
        × ((r ≡ p) ⊎ (get_logger (name p) (between m) ≡ some r))
  unfolding add_logger
  add_logger_lem between p m k q keeps e = elim (Bool-cases (logger_exist (name p) m)) [
    | inl there ↦
        let (r, found) = logger_exist-some (name p) m there in
        rw there (e, r, found, inr (keeps (name p) r found))
    | inr missing ↦
        let (r, found, how) = insert_new-some p (between m) in
        rw missing (rw (insert_new_lem p k (between m), keeps k q e) refl, r, found, how)
  ]
