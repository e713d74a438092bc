-- ===== src/LogSystem/Worker/Wait.antt =====
-- logSystem/logsCode/AsyncWorker.hpp: the consumer's wait in detail, with what a notification that
-- comes too early does.
use asyn_log_system.LogSystem.Config.{Config}
use asyn_log_system.LogSystem.Buffer.{max_size}
use asyn_log_system.LogSystem.Worker.Shutdown.{drain-Finishes, consume-none}
use asyn_log_system.LogSystem.Worker.{
  checking_empty, flush_consumer, checking_stop, swap_buffers, flushing, consume_at, AsyncType,
  Worker, Refusal, would_block, Reach, start, next, pushes, consumes, stops, Pc, waiting, returned,
  init, consume, drain, or_stay, push, request_stop,
}
use asyn_log_system.Prelude.{
  some_injective, >>=-eq-ok, ℕ, ◌≤◌, ◌≡◌, ◌≢◌, ◌⊎◌, refl, sym, inl, inr, ap, ◌∙◌, subst, true, List,
  [], ◌++◌, concat, Option, none, some, zero, suc, ok, err, Result, ◌>>=◌, Option-cases, length,
  arith, append-nil,
}

-- `cond_consumer_.wait`: the thread is not in it or about to test its condition, it has found the
-- condition false and still holds the mutex, or it is blocked and the mutex is free.
pub data Sleep : Type 0 where
  awake dozing asleep : Sleep

-- A worker with the state of that wait.
pub record Live : Type 0 where
  pub worker : Worker
  pub sleep : Sleep

abbrev pub live : Worker → Live
live w = record { worker = w; sleep = awake }

-- A worker that cannot go on waits, unless its thread has returned.
unfoldable pub doze : Pc → Worker → Option Live
doze returned w = none
doze _ w = some (record { worker = w; sleep = dozing })

unfoldable pub go_on : Option Worker → Worker → Option Live
unfolding doze
go_on (some w') w = some (live w')
go_on none w = doze w.pc w

-- One step of the consumer's thread; `none` while it is blocked and after it has returned.
unfoldable pub move_at : Sleep → Worker → Option Live
unfolding go_on
move_at awake w = go_on (consume w) w
move_at dozing w = some (record { worker = w; sleep = asleep })
move_at asleep w = none

unfoldable pub move : Live → Option Live
unfolding move_at
move l = move_at l.sleep l.worker

unfoldable pub stay : Live → Option Live → Live
stay l none = l
stay l (some l') = l'

-- The consumer's thread alone, for so many steps.
unfoldable pub moves : ℕ → Live → Live
unfolding stay
moves zero l = l
moves (suc n) l = moves n (stay l (move l))

unfoldable pub wake : Sleep → Sleep
wake awake = awake
wake dozing = dozing
wake asleep = awake

-- A notification reaches a thread that is blocked.
unfoldable pub notify : Live → Live
notify l = record l { sleep = wake l.sleep }

-- `stop_ = true` in `Stop()`, for which nobody needs the mutex; `notify` is the call after it.
unfoldable pub set_stop : Live → Live
set_stop l = record l { worker = request_stop l.worker }

unfoldable pub push_at : Sleep → Config → List ℕ → Worker → Result Refusal Live
push_at dozing c ds w = err would_block
push_at awake c ds w = do w' ← push c ds w; ok (live w')
push_at asleep c ds w = do w' ← push c ds w; ok (live w')

-- `Push(data, len)`, which needs the mutex and notifies the consumer at its end.
unfoldable pub push_live : Config → List ℕ → Live → Result Refusal Live
unfolding push_at
push_live c ds l = push_at l.sleep c ds l.worker

-- One step of some thread; the list is what the step pushed. A wake-up without a notification is
-- one with it.
pub data Acts (c : Config) (l : Live) : List ℕ → Live → Type 0 where
  push_acts :
      (ds : List ℕ) {l' : Live} → length ds ≤ max_size → push_live c ds l ≡ ok l' → Acts c l ds l'
  move_acts : {l' : Live} → move l ≡ some l' → Acts c l [] l'
  stop_acts : Acts c l [] (set_stop l)
  notify_acts : Acts c l [] (notify l)

pub data Runs (c : Config) (t : AsyncType) : Live → List ℕ → Type 0 where
  begin : Runs c t (live (init c t)) []
  after :
      {l l' : Live} {sent ds : List ℕ} → Runs c t l sent → Acts c l ds l' → Runs c t l' (sent ++ ds)

push_at-worker :
    (s : Sleep) (c : Config) (ds : List ℕ) (w : Worker) (l' : Live)
    → push_at s c ds w ≡ ok l'
    → push c ds w ≡ ok l'.worker
unfolding push_at
push_at-worker dozing c ds w l' e = cc e
push_at-worker awake c ds w l' e =
    let (w', pushed, same) = >>=-eq-ok (push c ds w) _ e in cc (pushed, same)
push_at-worker asleep c ds w l' e =
    let (w', pushed, same) = >>=-eq-ok (push c ds w) _ e in cc (pushed, same)

doze-worker : (p : Pc) (w : Worker) (l' : Live) → doze p w ≡ some l' → l'.worker ≡ w
unfolding doze
doze-worker returned w l' e = cc e
doze-worker waiting w l' e = sym (ap (λ x. x.worker) (some_injective e))
doze-worker flushing w l' e = sym (ap (λ x. x.worker) (some_injective e))
doze-worker checking_stop w l' e = sym (ap (λ x. x.worker) (some_injective e))
doze-worker checking_empty w l' e = sym (ap (λ x. x.worker) (some_injective e))

move_at-worker :
    (s : Sleep) (w : Worker) (l' : Live)
    → move_at s w ≡ some l'
    → (consume w ≡ some l'.worker) ⊎ (l'.worker ≡ w)
unfolding move_at go_on doze
move_at-worker awake w l' e = elim (Option-cases (consume w)) [
  | inl stuck ↦ inr (doze-worker w.pc w l' (rw stuck at e))
  | inr (w', gone) ↦ inl (gone ∙ ap (λ x. some x.worker) (some_injective (rw gone at e)))
]
move_at-worker dozing w l' e = inr (sym (ap (λ x. x.worker) (some_injective e)))
move_at-worker asleep w l' e = cc e

-- A run of the wait in detail is a run in which the wait is a guard.
pub Runs-Reach :
    {c : Config} {t : AsyncType} {l : Live} {sent : List ℕ}
    → Runs c t l sent
    → Reach c t l.worker sent
unfolding move push_live set_stop notify
Runs-Reach begin = start
Runs-Reach {c} (after {l} {l'} r (push_acts ds fit e)) =
    next (Runs-Reach r) (pushes ds fit (push_at-worker l.sleep c ds l.worker l' e))
Runs-Reach {c} {t} {sent = sent} (after {l} {l'} {sent = before} r (move_acts e)) =
    elim (move_at-worker l.sleep l.worker l' e) [
      | inl gone ↦ next (Runs-Reach r) (consumes gone)
      | inr same ↦
          subst (λ w. Reach c t w (before ++ [])) (sym same)
            (subst (Reach c t l.worker) (sym (append-nil before)) (Runs-Reach r))
    ]
Runs-Reach (after r stop_acts) = next (Runs-Reach r) (stops refl)
Runs-Reach {c} {t} (after {l} {sent = before} r notify_acts) =
    subst (Reach c t l.worker) (sym (append-nil before)) (Runs-Reach r)

-- From now on the thread is not in its loop's end, however many steps it makes.
abbrev pub Hangs : Live → Type 0
Hangs l = (n : ℕ) → (moves n l).worker.pc ≢ returned

-- So many steps of the thread alone end it, with all of `sent` delivered.
abbrev pub Ends : ℕ → Live → List ℕ → Type 0
Ends n l sent = ((moves n l).worker.pc ≡ returned) × (concat (moves n l).worker.delivered ≡ sent)

pub moves-asleep :
    (n : ℕ) (w : Worker)
    → moves n (record { worker = w; sleep = asleep }) ≡ record { worker = w; sleep = asleep }
unfolding moves move move_at stay
moves-asleep zero w = refl
moves-asleep (suc n) w = moves-asleep n w

-- A notification before the thread is blocked is lost.
pub Hangs-dozing : (w : Worker) → w.pc ≢ returned → Hangs (record { worker = w; sleep = dozing })
unfolding moves move move_at stay
Hangs-dozing w p zero e = p e
Hangs-dozing w p (suc n) e = p (sym (ap (λ l. l.worker.pc) (moves-asleep n w)) ∙ e)

stopped_returned : (w : Worker) → w.stop ≡ true → consume w ≡ none → w.pc ≡ returned
stopped_returned w s e = elim ((consume-none w).0 e) [
  | inl gone ↦ gone
  | inr (at, running, empty) ↦ cc (s, running)
]

pub consume_at-stop : (p : Pc) (w w' : Worker) → consume_at p w ≡ some w' → w'.stop ≡ w.stop
unfolding consume_at swap_buffers flush_consumer
consume_at-stop waiting w w' e = ground arith
consume_at-stop flushing w w' e = ground arith
consume_at-stop checking_stop w w' e = ground arith
consume_at-stop checking_empty w w' e = ground arith
consume_at-stop returned w w' e = cc

-- After Stop a thread that is awake moves as if the wait were a guard.
pub moves-stopped : (n : ℕ) (w : Worker) → w.stop ≡ true → moves n (live w) ≡ live (drain n w)
unfolding moves move move_at go_on doze stay drain
moves-stopped zero w s = refl
moves-stopped (suc n) w s = elim (Option-cases (consume w)) [
  | inl stuck ↦
      ap (λ o. moves n (stay (live w) o))
        (ap (λ o. go_on o w) stuck ∙ ap (λ p. doze p w) (stopped_returned w s stuck))
      ∙ moves-stopped n w s
      ∙ ap (λ o. live (drain n (or_stay w o))) (sym stuck)
  | inr (w', gone) ↦
      ap (λ o. moves n (stay (live w) (go_on o w))) gone
      ∙ moves-stopped n w' (consume_at-stop w.pc w w' (unfold consume in gone) ∙ s)
      ∙ ap (λ o. live (drain n (or_stay w o))) (sym gone)
]

-- In a state that the threads reach after stop_ has been set, before the consumer thread has
-- returned, the notification of Stop either comes while that thread is between its test and its
-- sleep, and then it never returns, unless somebody else notifies it or it wakes up by itself; or
-- the thread returns within seven of its steps, with all bytes pushed delivered to the callback in
-- their order; buffer_size is at most 2^63 - 1.
pub notify-Ends :
    {c : Config} {t : AsyncType} (l : Live) (sent : List ℕ)
    → c.buffer_size ≤ max_size
    → Runs c t l sent
    → l.worker.stop ≡ true
    → l.worker.pc ≢ returned
    → ((l.sleep ≡ dozing) × Hangs (notify l)) ⊎ ((l.sleep ≢ dozing) × Ends 7 (notify l) sent)
unfolding notify wake
notify-Ends l sent small r s p = by_sleep l.sleep refl
  where
    ends : Ends 7 (live l.worker) sent
    ends =
        let (gone, all) = drain-Finishes l.worker sent small (Runs-Reach r) s p in
        rw (moves-stopped 7 l.worker s) (gone, all)

    by_sleep :
        (z : Sleep)
        → l.sleep ≡ z
        → ((z ≡ dozing) × Hangs (record { worker = l.worker; sleep = wake z }))
          ⊎ ((z ≢ dozing) × Ends 7 (record { worker = l.worker; sleep = wake z }) sent)
    by_sleep awake at = inr ((λ e. cc e), ends)
    by_sleep asleep at = inr ((λ e. cc e), ends)
    by_sleep dozing at = inl (refl, Hangs-dozing l.worker p)
