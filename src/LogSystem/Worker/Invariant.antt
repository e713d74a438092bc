-- ===== src/LogSystem/Worker/Invariant.antt =====
-- logSystem/logsCode/AsyncWorker.hpp: the two buffers hold, in order, what the callback has not had.
use asyn_log_system.Prelude.{
  ℕ, ◌-◌, ◌≤◌, ◌≡◌, refl, ap, inl, inr, Bool, true, false, List, [], ◌++◌, length, concat,
  concat-append, some, if◌then◌else◌, ok, some_injective, Bool-cases, Result-cases, subst, ◌||◌,
  not, ◌∙◌, arith, append-nil, append_assoc, length-replicate,
}
use asyn_log_system.LogSystem.Config.{Config}
use asyn_log_system.LogSystem.Buffer
use asyn_log_system.LogSystem.Buffer.{
  Fault, Buffer, max_size, contents, read, readable_size, is_empty,
}
use asyn_log_system.LogSystem.Buffer.Contents.{IsValid, push-Pushed}
use asyn_log_system.LogSystem.Buffer.Views.{init-IsValid, reset-IsValid, write_pos-is_empty}
use asyn_log_system.LogSystem.Worker.{
  AsyncType, Pc, waiting, flushing, checking_stop, checking_empty, returned, Worker, init, can_push,
  lift_fault, push, request_stop, swap_buffers, flush_consumer, consume, consume_at, Step, pushes,
  consumes, stops, Reach, start, next,
}

-- The consumer's buffer is clear but for the time between the swap and the callback.
abbrev pub IsClear : Pc → Buffer → Type 0
IsClear flushing b = Unit {0}
IsClear _ b = b.write_pos ≡ 0

-- A consumer that is past its test of `stop_` has seen it set.
abbrev pub HasStopped : Pc → Bool → Type 0
HasStopped checking_empty stop = stop ≡ true
HasStopped returned stop = stop ≡ true
HasStopped _ stop = Unit {0}

-- All bytes that the worker has accepted and still has, oldest first.
abbrev pub held : Worker → List ℕ
held w = concat w.delivered ++ contents w.consumer ++ contents w.productor

-- `sent` is all that was pushed.
pub record Inv (c : Config) (w : Worker) (sent : List ℕ) : Type 0 where
  pub productor_valid : IsValid w.productor
  pub consumer_valid : IsValid w.consumer
  pub productor_unread : w.productor.read_pos ≡ 0
  pub consumer_unread : w.consumer.read_pos ≡ 0
  pub productor_size : c.buffer_size ≤ length w.productor.storage
  pub consumer_size : c.buffer_size ≤ length w.consumer.storage
  pub clear : IsClear w.pc w.consumer
  pub stopped : HasStopped w.pc w.stop
  pub conserved : held w ≡ sent

pub init-Inv : (c : Config) (t : AsyncType) → c.buffer_size ≤ max_size → Inv c (init c t) []
unfolding init Buffer.init
init-Inv c t h = record {
  productor_valid = init-IsValid c h;
  consumer_valid = init-IsValid c h;
  productor_unread = refl;
  consumer_unread = refl;
  productor_size = omega (arith, length-replicate {A = ℕ} c.buffer_size 0);
  consumer_size = omega (arith, length-replicate {A = ℕ} c.buffer_size 0);
  clear = refl;
  stopped = tt;
  conserved = refl;
}

-- A push that goes through is a push into the producers' buffer, whatever the type.
pub push-eq-ok :
    (c : Config) (ds : List ℕ) (w w' : Worker)
    → push c ds w ≡ ok w'
    → (b : Buffer) × (Buffer.push c ds w.productor ≡ ok b) × (w' ≡ record w { productor = b })
unfolding push lift_fault
push-eq-ok c ds w w' h = elim (Bool-cases (can_push (length ds) w)) [
  | inr no_room ↦ cc (rw no_room at h)
  | inl room ↦ elim (Result-cases (Buffer.push c ds w.productor)) [
    | inl (b, e) ↦ (b, e, cc (rw (room, e) at h))
    | inr (x, e) ↦ cc (rw (room, e) at h)
  ]
]

push-Inv :
    {c : Config} {w w' : Worker} {sent : List ℕ} (ds : List ℕ)
    → length ds ≤ max_size
    → push c ds w ≡ ok w'
    → Inv c w sent
    → Inv c w' (sent ++ ds)
push-Inv {c} {w} {w'} {sent} ds h e v =
    let (b, done, same) = push-eq-ok c ds w w' e in
    elim (push-Pushed c ds w.productor h v.productor_valid) [
      | inl failed ↦ cc (done, failed)
      | inr (b', done', p) ↦
          let q : b' ≡ b = cc (done, done') in
          rw (same, ← q)
            (record {
              productor_valid = p.valid;
              consumer_valid = v.consumer_valid;
              productor_unread = p.unread ∙ v.productor_unread;
              consumer_unread = v.consumer_unread;
              productor_size = omega (arith, p.no_smaller);
              consumer_size = v.consumer_size;
              clear = v.clear;
              stopped = v.stopped;
              conserved = rw (p.appended, ← append_assoc) (ap (λ t. t ++ ds) v.conserved);
            })
    ]

-- What the callback is given is what the consumer's buffer holds.
read-contents : (b : Buffer) → IsValid b → read b (readable_size b) ≡ contents b
read-contents b v = let e : readable_size b ≡ b.write_pos - b.read_pos = omega arith in rw e

pub contents-unwritten : (b : Buffer) → b.write_pos ≡ 0 → contents b ≡ []
contents-unwritten b h = let e : b.write_pos - b.read_pos ≡ 0 = omega arith in rw e

swap_buffers-Inv :
    {c : Config} {w : Worker} {sent : List ℕ}
    → w.consumer.write_pos ≡ 0
    → Inv c w sent
    → Inv c (swap_buffers w) sent
unfolding swap_buffers Buffer.swap
swap_buffers-Inv {w} h v = record {
  productor_valid = v.consumer_valid;
  consumer_valid = v.productor_valid;
  productor_unread = v.consumer_unread;
  consumer_unread = v.productor_unread;
  productor_size = v.consumer_size;
  consumer_size = v.productor_size;
  clear = tt;
  stopped = tt;
  conserved =
      rw (contents-unwritten w.consumer h, append-nil)
        (rw (contents-unwritten w.consumer h, append-nil) at v.conserved);
}

flush_consumer-Inv :
    {c : Config} {w : Worker} {sent : List ℕ} → Inv c w sent → Inv c (flush_consumer w) sent
unfolding flush_consumer Buffer.reset
flush_consumer-Inv {w} v = elim (Bool-cases (is_empty w.consumer)) [
  | inl e ↦ rw e (record {
    productor_valid = v.productor_valid;
    consumer_valid = v.consumer_valid;
    productor_unread = v.productor_unread;
    consumer_unread = v.consumer_unread;
    productor_size = v.productor_size;
    consumer_size = v.consumer_size;
    clear = write_pos-is_empty w.consumer e ∙ v.consumer_unread;
    stopped = tt;
    conserved = v.conserved;
  })
  | inr e ↦ rw e (record {
    productor_valid = v.productor_valid;
    consumer_valid = reset-IsValid w.consumer v.consumer_valid;
    productor_unread = v.productor_unread;
    consumer_unread = refl;
    productor_size = v.productor_size;
    consumer_size = v.consumer_size;
    clear = refl;
    stopped = tt;
    conserved =
        rw (read-contents w.consumer v.consumer_valid, concat-append, append-nil, append-nil)
          v.conserved;
  })
]

-- The end of a round changes nothing but the position.
check-Inv :
    {c : Config} {w : Worker} {sent : List ℕ} (p : Pc)
    → w.consumer.write_pos ≡ 0
    → HasStopped p w.stop
    → Inv c w sent
    → Inv c (record w { pc = p }) sent
check-Inv {w} p h k v = record {
  productor_valid = v.productor_valid;
  consumer_valid = v.consumer_valid;
  productor_unread = v.productor_unread;
  consumer_unread = v.consumer_unread;
  productor_size = v.productor_size;
  consumer_size = v.consumer_size;
  clear = IsClear_of_unwritten p w.consumer h;
  stopped = k;
  conserved = v.conserved;
}
  where
    IsClear_of_unwritten : (p : Pc) (b : Buffer) → b.write_pos ≡ 0 → IsClear p b
    IsClear_of_unwritten flushing b h = tt
    IsClear_of_unwritten waiting b h = h
    IsClear_of_unwritten _ b h = h

HasStopped-if : (stop : Bool) → HasStopped (if stop then checking_empty else waiting) stop
HasStopped-if true = refl
HasStopped-if false = tt

HasStopped-returned :
    (b stop : Bool) → stop ≡ true → HasStopped (if b then returned else waiting) stop
HasStopped-returned true stop h = h
HasStopped-returned false stop h = tt

consume_at-Inv :
    {c : Config} {w w' : Worker} {sent : List ℕ} (p : Pc)
    → w.pc ≡ p
    → consume_at p w ≡ some w'
    → Inv c w sent
    → Inv c w' sent
unfolding consume_at
consume_at-Inv {c} {w} {w'} {sent} waiting at e v =
    elim (Bool-cases (w.stop || not (is_empty w.productor))) [
      | inr asleep ↦ cc (rw asleep at e)
      | inl awake ↦
          subst (λ x. Inv c x sent) (some_injective (rw awake at e))
            (swap_buffers-Inv (rw at at v.clear) v)
    ]
consume_at-Inv {c} {sent = sent} flushing at e v =
    subst (λ x. Inv c x sent) (some_injective e) (flush_consumer-Inv v)
consume_at-Inv {c} {w} {sent = sent} checking_stop at e v =
    subst (λ x. Inv c x sent) (some_injective e)
      (check-Inv (if w.stop then checking_empty else waiting) (rw at at v.clear)
        (HasStopped-if w.stop) v)
consume_at-Inv {c} {w} {sent = sent} checking_empty at e v =
    subst (λ x. Inv c x sent) (some_injective e)
      (check-Inv (if is_empty w.productor then returned else waiting) (rw at at v.clear)
        (HasStopped-returned (is_empty w.productor) w.stop (rw at at v.stopped)) v)
consume_at-Inv returned at e v = cc

pub consume-Inv :
    {c : Config} {w w' : Worker} {sent : List ℕ}
    → consume w ≡ some w'
    → Inv c w sent
    → Inv c w' sent
unfolding consume
consume-Inv {w} e v = consume_at-Inv w.pc refl e v

request_stop-Inv :
    {c : Config} {w : Worker} {sent : List ℕ} → Inv c w sent → Inv c (request_stop w) sent
unfolding request_stop
request_stop-Inv {w} v = record {
  productor_valid = v.productor_valid;
  consumer_valid = v.consumer_valid;
  productor_unread = v.productor_unread;
  consumer_unread = v.consumer_unread;
  productor_size = v.productor_size;
  consumer_size = v.consumer_size;
  clear = v.clear;
  stopped = stop_seen w.pc;
  conserved = v.conserved;
}
  where
    stop_seen : (p : Pc) → HasStopped p true
    stop_seen checking_empty = refl
    stop_seen returned = refl
    stop_seen waiting = tt
    stop_seen _ = tt

-- Every step of a producer, of the consumer or of `Stop` keeps the invariant.
pub Step-Inv :
    {c : Config} {w w' : Worker} {sent ds : List ℕ}
    → Step c w ds w'
    → Inv c w sent
    → Inv c w' (sent ++ ds)
Step-Inv (pushes ds h e) v = push-Inv ds h e v
Step-Inv {c} {w} {w'} {sent} (consumes e) v = rw append-nil (consume-Inv e v)
Step-Inv {c} {w} {w'} {sent} (stops e) v = rw (append-nil, e) (request_stop-Inv v)

-- If buffer_size is at most 2^63 - 1, in every reachable state of the worker both buffers are
-- valid, unread and no smaller than buffer_size, and the bytes delivered, those in the consumer's
-- buffer and those in the producers' buffer are, in this order, exactly the bytes pushed.
pub Reach-Inv :
    {c : Config} {t : AsyncType} {w : Worker} {sent : List ℕ}
    → c.buffer_size ≤ max_size
    → Reach c t w sent
    → Inv c w sent
Reach-Inv {c} {t} h start = init-Inv c t h
Reach-Inv h (next r st) = Step-Inv st (Reach-Inv h r)
