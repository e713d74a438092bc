-- ===== src/LogSystem/ThreadPool/Steps.antt =====
-- logSystem/logsCode/ThreadPoll.hpp: what one step of a worker changes.
use asyn_log_system.Prelude.{
  ℕ, ◌+◌, ◌≡◌, refl, ◌⊎◌, inl, inr, Bool, true, false, not, ◌&&◌, ◌||◌, List, [], ◌∷◌, ◌++◌,
  append_assoc, length, some, if◌then◌else◌, arith, Bool-cases, subst, some_injective,
}
use asyn_log_system.LogSystem.ThreadPool.{
  Thread, waiting, running, returned, Queue, empty, take_front, work, Moves, here, there,
}

module _ {ℓ} {A : Type ℓ} where
  -- How often a test holds.
  abbrev pub count : (A → Bool) → List A → ℕ
  count f [] = 0
  count f (x ∷ xs) = (if f x then 1 else 0) + count f xs

  -- How often it holds of the tasks that the workers run.
  abbrev pub count_running : (A → Bool) → List (Thread A) → ℕ
  count_running f [] = 0
  count_running f (waiting ∷ ws) = count_running f ws
  count_running f (running t ∷ ws) = (if f t then 1 else 0) + count_running f ws
  count_running f (returned ∷ ws) = count_running f ws

  abbrev pub is_returned : Thread A → Bool
  is_returned waiting = false
  is_returned (running t) = false
  is_returned returned = true

  abbrev pub all_returned : List (Thread A) → Bool
  all_returned [] = true
  all_returned (w ∷ ws) = is_returned w && all_returned ws

  abbrev pub some_returned : List (Thread A) → Bool
  some_returned [] = false
  some_returned (w ∷ ws) = is_returned w || some_returned ws

  -- What a returned worker means for the rest.
  abbrev pub IsDrained : Queue A → Type ℓ
  IsDrained q = (q.stop ≡ true) × (q.tasks ≡ [])

  pub count-append : (f : A → Bool) (xs ys : List A) → count f (xs ++ ys) ≡ count f xs + count f ys
  count-append f [] ys = omega arith
  count-append f (x ∷ xs) ys = ground (arith, count-append f xs ys)

  -- `sent` is all that was enqueued in a pool of `n` threads.
  pub record IsAccounted (n : ℕ) (ws : List (Thread A)) (q : Queue A) (sent : List A) : Type ℓ where
    pub size : length ws ≡ n
    pub order : q.taken ++ q.tasks ≡ sent
    pub conserved : (f : A → Bool) → count f q.finished + count_running f ws ≡ count f q.taken
    pub drained : some_returned ws ≡ true → IsDrained q

  -- The three things that a worker does.
  pub data Worked (q : Queue A) : Thread A → Thread A → Queue A → Type ℓ where
    returns : q.stop ≡ true → q.tasks ≡ [] → Worked q waiting returned q
    takes :
        (t : A) (ts : List A)
        → q.tasks ≡ t ∷ ts
        → Worked q waiting (running t) (record q { tasks = ts; taken = q.taken ++ t ∷ [] })
    finishes : (t : A) → Worked q (running t) waiting (record q { finished = q.finished ++ t ∷ [] })

  take_front-Worked :
      (ts : List A) (q : Queue A) (r : Thread A × Queue A)
      → q.tasks ≡ ts
      → take_front ts q ≡ some r
      → Worked q waiting r.0 r.1
  unfolding take_front
  take_front-Worked [] q r e h = cc
  take_front-Worked (t ∷ ts) q r e h =
      subst (λ r. Worked q waiting r.0 r.1) (some_injective h) (takes t ts e)

  empty→eq : (ts : List A) → empty ts ≡ true → ts ≡ []
  unfolding empty
  empty→eq [] h = refl
  empty→eq (t ∷ ts) h = cc

  pub work-Worked :
      (w : Thread A) (q : Queue A) (r : Thread A × Queue A) → work w q ≡ some r → Worked q w r.0 r.1
  unfolding work
  work-Worked returned q r h = cc
  work-Worked (running t) q r h =
      subst (λ r. Worked q (running t) r.0 r.1) (some_injective h) (finishes t)
  work-Worked waiting q r h = elim (Bool-cases (q.stop || not (empty q.tasks))) [
    | inr asleep ↦ cc (rw asleep at h)
    | inl awake ↦ elim (Bool-cases (q.stop && empty q.tasks)) [
      | inl over ↦
          subst (λ r. Worked q waiting r.0 r.1) (some_injective (rw (awake, over) at h))
            (returns (ground arith) (empty→eq q.tasks (ground arith)))
      | inr more ↦ take_front-Worked q.tasks q r refl (rw (awake, more) at h)
    ]
  ]

  -- A step of some worker keeps the rest of the invariant.
  pub record Kept (ws ws' : List (Thread A)) (q q' : Queue A) : Type ℓ where
    pub size : length ws' ≡ length ws
    pub order : q'.taken ++ q'.tasks ≡ q.taken ++ q.tasks
    pub stop : q'.stop ≡ q.stop
    pub counts :
        (f : A → Bool)
        → count f q'.finished + count_running f ws' + count f q.taken
          ≡ count f q.finished + count_running f ws + count f q'.taken
    pub drained : IsDrained q → IsDrained q'
    pub returns : some_returned ws' ≡ true → (some_returned ws ≡ true) ⊎ IsDrained q'

  Worked-Kept :
      {w w' : Thread A} {q q' : Queue A}
      → (ws : List (Thread A)) → Worked q w w' q'
      → Kept (w ∷ ws) (w' ∷ ws) q q'
  Worked-Kept {q = q} ws (returns s e) = record {
    size = refl;
    order = refl;
    stop = refl;
    counts = λ f. refl;
    drained = λ d. d;
    returns = λ r. inr (s, e);
  }
  Worked-Kept {q = q} ws (takes t ts e) = record {
    size = refl;
    order = rw (append_assoc, e) refl;
    stop = refl;
    counts = λ f. omega (arith, count-append f q.taken (t ∷ []));
    drained = λ d. cc (e, d.1);
    returns = λ r. inl r;
  }
  Worked-Kept {q = q} ws (finishes t) = record {
    size = refl;
    order = refl;
    stop = refl;
    counts = λ f. omega (arith, count-append f q.finished (t ∷ []));
    drained = λ d. d;
    returns = λ r. inl r;
  }

  pub Moves-Kept :
      {ws ws' : List (Thread A)} {q q' : Queue A} → Moves ws q ws' q' → Kept ws ws' q q'
  Moves-Kept (here {ws = ws} e) = Worked-Kept ws (work-Worked _ _ _ e)
  Moves-Kept (there {w = waiting} m) =
      let k = Moves-Kept m in
      record {
        size = omega (arith, k.size);
        order = k.order;
        stop = k.stop;
        counts = k.counts;
        drained = k.drained;
        returns = k.returns;
      }
  Moves-Kept (there {w = returned} m) =
      let k = Moves-Kept m in
      record {
        size = omega (arith, k.size);
        order = k.order;
        stop = k.stop;
        counts = k.counts;
        drained = k.drained;
        returns = λ r. inl refl;
      }
  Moves-Kept (there {w = running t} m) =
      let k = Moves-Kept m in
      record {
        size = omega (arith, k.size);
        order = k.order;
        stop = k.stop;
        counts = λ f. omega (arith, k.counts f);
        drained = k.drained;
        returns = k.returns;
      }
