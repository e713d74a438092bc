-- ===== src/LogSystem/Worker/Turns.antt =====
-- logSystem/logsCode/AsyncWorker.hpp: whole runs of one producer's thread against the consumer, from
-- the constructor to Stop and the end of the consumer's thread.
use asyn_log_system.LogSystem.Worker.Pushing.{
  IsBefore-moves, take_turns-IsBefore, message_of, take_turns, AllFit, Turn,
}
use asyn_log_system.LogSystem.Worker.Shutdown.{drain-returned, drain-Finishes}
use asyn_log_system.LogSystem.Buffer.{max_size}
use asyn_log_system.LogSystem.Config.{Config}
use asyn_log_system.LogSystem.Worker.{
  AsyncType, Worker, Reach, next, stops, returned, init, consume, drain, or_stay, request_stop,
}
use asyn_log_system.Prelude.{
  ◌⊎◌, ◌∙◌, ap, Option-cases, ℕ, ◌+◌, ◌*◌, ◌≤◌, ◌≡◌, ◌≢◌, refl, sym, inl, inr, subst, true, List,
  [], length, concat, map, zero, suc, ok, arith, append-nil,
}
use asyn_log_system.LogSystem.Worker.Open.{running, growth, IsOpen-init}
use asyn_log_system.LogSystem.Worker.Wait.{
  consume_at-stop, Live, Sleep, awake, dozing, asleep, live, move, move_at, stay, moves, wake,
  notify, set_stop, Hangs, Hangs-dozing, Ends, moves-asleep, moves-stopped,
}

-- What the buffers can grow to while the turns are taken.
abbrev pub most_after : Config → List Turn → ℕ
most_after c turns = 2 * c.threshold + c.buffer_size + length turns * growth c

-- Stop is called after so many steps of the consumer, and notifies it after so many more.
abbrev pub stop_after : ℕ → ℕ → Live → Live
stop_after steps between l = notify (moves between (set_stop (moves steps l)))

-- The notification of Stop comes while the thread is between its test and its sleep.
abbrev pub IsLost : ℕ → ℕ → Live → Type 0
IsLost steps between l =
    ((moves steps l).sleep ≡ dozing) × (between ≡ 0) × Hangs (stop_after steps between l)

drain-drain : (n m : ℕ) (w : Worker) → drain n (drain m w) ≡ drain m (drain n w)
unfolding drain
drain-drain n zero w = refl
drain-drain n (suc m) w = drain-drain n m (or_stay w (consume w)) ∙ ap (drain m) (later n w)
  where
    later :
        (n : ℕ) (w : Worker)
        → drain n (or_stay w (consume w)) ≡ or_stay (drain n w) (consume (drain n w))
    later zero w = refl
    later (suc n) w = later n (or_stay w (consume w))

drain-stop : (n : ℕ) (w : Worker) → w.stop ≡ true → (drain n w).stop ≡ true
unfolding drain
drain-stop zero w s = s
drain-stop (suc n) w s = elim (Option-cases (consume w)) [
  | inl e ↦ subst (λ x. (drain n (or_stay w x)).stop ≡ true) (sym e) (drain-stop n w s)
  | inr (w', e) ↦
      subst (λ x. (drain n (or_stay w x)).stop ≡ true) (sym e)
        (drain-stop n w' (consume_at-stop w.pc w w' (unfold consume in e) ∙ s))
]

-- A notification that is not lost lets the thread go on as if its wait were a guard.
stop_at :
    (z : Sleep) (w : Worker) (between : ℕ)
    → w.stop ≡ true
    → w.pc ≢ returned
    → (drain 7 w).pc ≡ returned
    → let l = notify (moves between (record { worker = w; sleep = z })) in
      ((z ≡ dozing) × (between ≡ 0) × Hangs l) ⊎ ((moves 7 l).worker ≡ drain 7 w)
unfolding notify wake
stop_at awake w between s p gone = inr (
    ap (λ l. (moves 7 (record l { sleep = wake l.sleep })).worker) (moves-stopped between w s)
    ∙ ap (λ l. l.worker) (moves-stopped 7 (drain between w) (drain-stop between w s))
    ∙ drain-drain 7 between w
    ∙ drain-returned between (drain 7 w) gone)
stop_at asleep w between s p gone = inr (
    ap (λ l. (moves 7 (record l { sleep = wake l.sleep })).worker) (moves-asleep between w)
    ∙ ap (λ l. l.worker) (moves-stopped 7 w s))
stop_at dozing w zero s p gone = inl (refl, refl, unfold moves in Hangs-dozing w p)
stop_at dozing w (suc between) s p gone = inr (
    ap (λ l. (moves 7 (record l { sleep = wake l.sleep })).worker) (asleep_then between w)
    ∙ ap (λ l. l.worker) (moves-stopped 7 w s))
  where
    asleep_then :
        (n : ℕ) (w : Worker)
        → moves (suc n) (record { worker = w; sleep = dozing })
          ≡ record { worker = w; sleep = asleep }
    asleep_then n w = unfold moves move move_at stay in moves-asleep n w

-- The worker after its turns, and what Stop does then.
pub take_turns-stop :
    (c : Config) (t : AsyncType) (turns : List Turn) (steps between : ℕ)
    → most_after c turns ≤ max_size
    → AllFit c.buffer_size turns
    → (l : Live) × (w : Worker) × (take_turns c turns (live (init c t)) ≡ ok l)
      × Reach c t w (concat (map message_of turns))
      × (w.stop ≡ true)
      × (w.pc ≢ returned)
      × (IsLost steps between l ⊎ ((moves 7 (stop_after steps between l)).worker ≡ drain 7 w))
unfolding set_stop request_stop
take_turns-stop c t turns steps between high fits =
    let sent : List ℕ = concat (map message_of turns) in
    let small : c.buffer_size ≤ max_size = omega arith in
    let (l, last, all, v) =
      take_turns-IsBefore (2 * c.threshold + c.buffer_size) turns (live (init c t)) [] (omega arith)
        high fits (record { opened = IsOpen-init c t; quiet = tt }) in
    let l1 : Live = moves steps l in
    let v1 = IsBefore-moves small steps l v in
    let w : Worker = request_stop l1.worker in
    let r : Reach c t w sent =
      subst (Reach c t w) (append-nil sent) (next v1.opened.reach (stops refl)) in
    let p = running small v1.opened in
    (
      l,
      w,
      all,
      r,
      refl,
      p,
      stop_at l1.sleep w between refl p (drain-Finishes w sent small r refl p).0,
    )

-- A worker is made, and one thread pushes every message of at most buffer_size bytes in its turn,
-- with any number of steps of the consumer before it; then Stop sets stop_ and, after any number
-- of steps of the consumer, notifies it. No push waits for more than five steps or throws. Then
-- either both parts of Stop come while the consumer's thread is between its test and its sleep,
-- and that thread never returns, unless it wakes up by itself; or it returns within seven more
-- steps, with the messages delivered to the callback in their order. Twice the threshold,
-- buffer_size, and linear_growth and buffer_size for each message are together at most 2^63 - 1.
pub take_turns-Ends :
    (c : Config) (t : AsyncType) (turns : List Turn) (steps between : ℕ)
    → most_after c turns ≤ max_size
    → AllFit c.buffer_size turns
    → (l : Live) × (take_turns c turns (live (init c t)) ≡ ok l)
      × (IsLost steps between l
          ⊎ Ends 7 (stop_after steps between l) (concat (map message_of turns)))
take_turns-Ends c t turns steps between high fits =
    let sent : List ℕ = concat (map message_of turns) in
    let (l, w, all, r, s, p, outcome) = take_turns-stop c t turns steps between high fits in
    let (gone, whole) = drain-Finishes w sent (omega arith) r s p in
    (
      l,
      all,
      elim outcome [
        | inl lost ↦ inl lost
        | inr same ↦ inr (ap (λ x. x.pc) same ∙ gone, ap (λ x. concat x.delivered) same ∙ whole)
      ],
    )
