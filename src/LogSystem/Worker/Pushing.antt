-- ===== src/LogSystem/Worker/Pushing.antt =====
-- logSystem/logsCode/AsyncWorker.hpp: one producer's thread that pushes messages in their turns, while
-- the consumer makes its steps.
use asyn_log_system.LogSystem.Worker.Invariant.{Reach-Inv}
use asyn_log_system.LogSystem.Worker.Producers.{Soon, producer_served}
use asyn_log_system.LogSystem.Worker.Shutdown.{drain-step, consume-none}
use asyn_log_system.LogSystem.Buffer.{is_empty, max_size}
use asyn_log_system.LogSystem.Config.{Config}
use asyn_log_system.LogSystem.Worker.{waiting, AsyncType, Worker, Refusal, consume, drain, can_push}
use asyn_log_system.Prelude.{
  ◌∙◌, ap, false, none, Bool, Option-cases, append_assoc, ◌++◌, ℕ, ◌+◌, ◌*◌, ◌≤◌, ◌≡◌, refl, sym,
  inl, inr, subst, true, List, [], ◌∷◌, length, concat, map, zero, suc, ok, Result, ◌>>=◌,
  Bool-cases, if◌then◌else◌, arith, append-nil,
}
use asyn_log_system.LogSystem.Worker.Open.{IsOpen, running, growth, IsOpen-push}
use asyn_log_system.LogSystem.Worker.Wait.{
  Live, Sleep, awake, dozing, asleep, live, move, move_at, go_on, doze, stay, moves, push_at,
  push_live,
}
use asyn_log_system.LogSystem.Worker.Open.{IsOpen-consume}
use asyn_log_system.LogSystem.Worker.Producers.{nonempty_of_full}

-- A producer gets past its wait if the mutex is free and its bytes find room.
unfoldable pub can_come : ℕ → Sleep → Worker → Bool
can_come len dozing w = false
can_come len awake w = can_push len w
can_come len asleep w = can_push len w

-- A producer that waits while the consumer makes at most so many steps.
unfoldable pub push_within : ℕ → Config → List ℕ → Live → Result Refusal Live
push_within zero c ds l = push_live c ds l
push_within (suc n) c ds l =
    let later = push_within n c ds (stay l (move l)) in
    if can_come (length ds) l.sleep l.worker then push_live c ds l else later

-- For each message: the steps that the consumer makes before the producer comes, and the message.
abbrev pub Turn : Type 0
Turn = ℕ × List ℕ

abbrev pub message_of : Turn → List ℕ
message_of (steps, ds) = ds

-- Every message is pushed in its turn.
unfoldable pub take_turns : Config → List Turn → Live → Result Refusal Live
take_turns c [] l = ok l
take_turns c ((steps, ds) ∷ turns) l = do
  l' ← push_within 5 c ds (moves steps l)
  take_turns c turns l'

-- All messages are of at most `n` bytes.
abbrev pub AllFit : ℕ → List Turn → Type 0
AllFit n [] = Unit
AllFit n ((steps, ds) ∷ turns) = (length ds ≤ n) × AllFit n turns

-- Who sleeps has seen an empty buffer, and a push would have ended the sleep.
abbrev pub IsQuiet : Sleep → Worker → Type 0
IsQuiet awake w = Unit
IsQuiet _ w = is_empty w.productor ≡ true

pub record IsBefore (c : Config) (t : AsyncType) (k : ℕ) (l : Live) (sent : List ℕ) : Type 0 where
  pub opened : IsOpen c t k l.worker sent
  pub quiet : IsQuiet l.sleep l.worker

module _ {c : Config} {t : AsyncType} {k : ℕ} {sent : List ℕ}
    (small : c.buffer_size ≤ max_size) where
  stuck_empty :
      (w : Worker)
      → IsOpen c t k w sent
      → consume w ≡ none
      → (w.pc ≡ waiting) × (is_empty w.productor ≡ true)
  stuck_empty w o e = elim ((consume-none w).0 e) [
    | inl gone ↦ absurd (running small o gone)
    | inr (at, going, empty) ↦ (at, empty)
  ]

  IsBefore-awake :
      (w : Worker) → IsOpen c t k w sent → IsBefore c t k (stay (live w) (move (live w))) sent
  unfolding move move_at stay go_on doze
  IsBefore-awake w o = elim (Option-cases (consume w)) [
    | inl e ↦
        let (at, empty) = stuck_empty w o e in
        subst (λ x. IsBefore c t k (stay (live w) x) sent)
          (sym (ap (λ x. go_on x w) e ∙ ap (λ p. doze p w) at))
          (record { opened = o; quiet = empty })
    | inr (w', e) ↦
        subst (λ x. IsBefore c t k (stay (live w) (go_on x w)) sent) (sym e)
          (record { opened = IsOpen-consume e o; quiet = tt })
  ]

  IsBefore-move :
      (z : Sleep) (w : Worker)
      → IsOpen c t k w sent
      → IsQuiet z w
      → let l : Live = record { worker = w; sleep = z } in IsBefore c t k (stay l (move l)) sent
  unfolding move move_at stay
  IsBefore-move awake w o q = IsBefore-awake w o
  IsBefore-move dozing w o q = record { opened = o; quiet = q }
  IsBefore-move asleep w o q = record { opened = o; quiet = q }

  pub IsBefore-moves : (n : ℕ) (l : Live) → IsBefore c t k l sent → IsBefore c t k (moves n l) sent
  unfolding moves
  IsBefore-moves zero l v = v
  IsBefore-moves (suc n) l v =
      IsBefore-moves n (stay l (move l)) (IsBefore-move l.sleep l.worker v.opened v.quiet)

-- The push goes through, and the worker is as before with the bytes.
abbrev Pushes : Config → AsyncType → ℕ → List ℕ → List ℕ → Result Refusal Live → Type 0
Pushes c t k ds sent r = (l' : Live) × (r ≡ ok l') × IsBefore c t (k + growth c) l' (sent ++ ds)

module _ {c : Config} {t : AsyncType} (k : ℕ) (ds : List ℕ) (sent : List ℕ)
    (low : 2 * c.threshold + c.buffer_size ≤ k) (high : k + growth c ≤ max_size)
    (fits : length ds ≤ c.buffer_size) where
  push_now :
      (w : Worker)
      → IsOpen c t k w sent
      → can_push (length ds) w ≡ true
      → Pushes c t k ds sent (push_at awake c ds w)
  unfolding push_at
  push_now w o room =
      let (w', pushed, o') = IsOpen-push k ds w sent low high fits room o in
      (live w', rw pushed refl, record { opened = o'; quiet = tt })

  push_awake :
      (n : ℕ) (w : Worker)
      → IsOpen c t k w sent
      → Soon n w (length ds)
      → Pushes c t k ds sent (push_within n c ds (live w))
  unfolding push_within push_live can_come move move_at stay go_on
  push_awake zero w o (zero, le, room) = push_now w o (unfold drain in room)
  push_awake zero w o (suc m, le, room) = absurd (omega arith)
  push_awake (suc n) w o (zero, le, room) =
      let now : can_push (length ds) w ≡ true = unfold drain in room in rw now (push_now w o now)
  push_awake (suc n) w o (suc m, le, room) = elim (Bool-cases (can_push (length ds) w)) [
    | inl now ↦ rw now (push_now w o now)
    | inr full ↦ elim (Option-cases (consume w)) [
      | inl stuck ↦
          let (at, empty) = stuck_empty (omega arith) w o stuck in
          cc (empty, nonempty_of_full (length ds) (Reach-Inv (omega arith) o.reach) fits full)
      | inr (w', gone) ↦
          rw (full, gone)
            (push_awake n w' (IsOpen-consume gone o) (
              m,
              omega arith,
              subst (λ x. can_push (length ds) x ≡ true) (drain-step m w w' gone) room,
            ))
    ]
  ]

  room_asleep :
      (w : Worker)
      → IsOpen c t k w sent
      → is_empty w.productor ≡ true
      → can_push (length ds) w ≡ true
  room_asleep w o empty =
      let v = Reach-Inv (omega arith) o.reach in
      elim (Bool-cases (can_push (length ds) w)) [
        | inl room ↦ room
        | inr full ↦ cc (empty, nonempty_of_full (length ds) v fits full)
      ]

  push_asleep :
      (w : Worker)
      → IsOpen c t k w sent
      → is_empty w.productor ≡ true
      → Pushes c t k ds sent (push_at asleep c ds w)
  unfolding push_at
  push_asleep w o empty = push_now w o (room_asleep w o empty)

  push_asleep_within :
      (n : ℕ) (w : Worker)
      → IsOpen c t k w sent
      → is_empty w.productor ≡ true
      → Pushes c t k ds sent (push_within n c ds (record { worker = w; sleep = asleep }))
  unfolding push_within push_live can_come
  push_asleep_within zero w o empty = push_asleep w o empty
  push_asleep_within (suc n) w o empty = rw (room_asleep w o empty) (push_asleep w o empty)

  push_dozing_within :
      (n : ℕ) (w : Worker)
      → IsOpen c t k w sent
      → is_empty w.productor ≡ true
      → Pushes c t k ds sent (push_within (suc n) c ds (record { worker = w; sleep = dozing }))
  unfolding push_within can_come move move_at stay
  push_dozing_within n w o empty = push_asleep_within n w o empty

  push_by_sleep :
      (z : Sleep) (w : Worker)
      → IsOpen c t k w sent
      → IsQuiet z w
      → Pushes c t k ds sent (push_within 5 c ds (record { worker = w; sleep = z }))
  push_by_sleep awake w o q = push_awake 5 w o (
      let (n, le, room) =
        producer_served w sent (length ds) (omega arith) o.reach (running (omega arith) o) fits in
      (n, omega arith, room))
  push_by_sleep dozing w o q = push_dozing_within 4 w o q
  push_by_sleep asleep w o q = push_asleep_within 5 w o q

-- Every push goes through.
pub take_turns-IsBefore :
    {c : Config} {t : AsyncType} (k : ℕ) (turns : List Turn) (l : Live) (sent : List ℕ)
    → 2 * c.threshold + c.buffer_size ≤ k
    → k + length turns * growth c ≤ max_size
    → AllFit c.buffer_size turns
    → IsBefore c t k l sent
    → (l' : Live) × (last : ℕ) × (take_turns c turns l ≡ ok l')
      × IsBefore c t last l' (sent ++ concat (map message_of turns))
unfolding take_turns
take_turns-IsBefore {c} {t} k [] l sent low high fits v =
    (l, k, refl, subst (IsBefore c t k l) (sym (append-nil sent)) v)
take_turns-IsBefore {c} {t} k ((steps, ds) ∷ turns) l sent low high (fit, fits) v =
    let one_more : suc (length turns) * growth c ≡ growth c + length turns * growth c =
      omega arith in
    let small : c.buffer_size ≤ max_size = omega arith in
    let l1 : Live = moves steps l in
    let v1 = IsBefore-moves small steps l v in
    let (l2, pushed, v2) =
      push_by_sleep k ds sent low (omega (arith, one_more)) fit l1.sleep l1.worker v1.opened
        v1.quiet in
    let (l3, last, all, v3) =
      take_turns-IsBefore (k + growth c) turns l2 (sent ++ ds) (omega arith)
        (omega (arith, one_more)) fits v2 in
    (
      l3,
      last,
      rw pushed all,
      subst (IsBefore c t last l3) (append_assoc sent ds (concat (map message_of turns))) v3,
    )
