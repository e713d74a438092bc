-- ===== src/LogSystem/Worker/Refine.antt =====
-- logSystem/logsCode/AsyncWorker.hpp: what the worker promises, as a first-in first-out channel, and
-- that its threads keep the promise.
use mathlib.Core.List.{append_cancel_left}
use asyn_log_system.Prelude.{
  ℕ, ◌≡◌, ◌≤◌, refl, sym, ap, ◌∙◌, inl, inr, subst, not, ◌||◌, List, [], ◌∷◌, ◌++◌, concat,
  concat-append, append_assoc, append-nil, some, some_injective, Bool-cases,
}
use asyn_log_system.LogSystem.Config.{Config}
use asyn_log_system.LogSystem.Buffer.{contents, max_size, is_empty, read, readable_size}
use asyn_log_system.LogSystem.Worker.{
  AsyncType, Pc, waiting, flushing, checking_stop, checking_empty, returned, Worker, request_stop,
  swap_buffers, flush_consumer, consume, consume_at, Step, pushes, consumes, stops, Reach,
}
use asyn_log_system.LogSystem.Worker.Invariant.{Inv, push-eq-ok, Step-Inv, Reach-Inv}

-- The bytes that have come out of the channel, and those that are inside, oldest first.
pub record Channel : Type 0 where
  pub delivered : List ℕ
  pub queued : List ℕ

-- What a channel may do: take new bytes at its end, or deliver bytes from its front.
pub data Acts (ch : Channel) : List ℕ → Channel → Type 0 where
  puts : (ds : List ℕ) → Acts ch ds (record { delivered = ch.delivered; queued = ch.queued ++ ds })
  delivers :
      (taken rest : List ℕ)
      → ch.queued ≡ taken ++ rest
      → Acts ch [] (record { delivered = ch.delivered ++ taken; queued = rest })

-- The channel that a worker is.
abbrev pub view : Worker → Channel
view w = record {
  delivered = concat w.delivered;
  queued = contents w.consumer ++ contents w.productor;
}

channel_eq :
    (d d' q q' : List ℕ)
    → d ≡ d'
    → q ≡ q'
    → ◌≡◌ {A = Channel}
        (record { delivered = d; queued = q })
        (record { delivered = d'; queued = q' })
channel_eq d d' q q' e f i = record { delivered = e i; queued = f i }

flush_consumer-extends :
    (w : Worker)
    → (taken : List ℕ) × (concat (flush_consumer w).delivered ≡ concat w.delivered ++ taken)
unfolding flush_consumer
flush_consumer-extends w = elim (Bool-cases (is_empty w.consumer)) [
  | inl e ↦ ([], rw e (sym (append-nil _)))
  | inr e ↦ (
    read w.consumer (readable_size w.consumer) ++ [],
    rw e (concat-append w.delivered (read w.consumer (readable_size w.consumer) ∷ [])),
  )
]

-- What was delivered stays delivered.
consume_at-extends :
    (p : Pc) (w w' : Worker)
    → consume_at p w ≡ some w'
    → (taken : List ℕ) × (concat w'.delivered ≡ concat w.delivered ++ taken)
unfolding consume_at swap_buffers
consume_at-extends waiting w w' e = elim (Bool-cases (w.stop || not (is_empty w.productor))) [
  | inr asleep ↦ cc (rw asleep at e)
  | inl awake ↦
      ([], ap (λ x. concat x.delivered) (sym (some_injective (rw awake at e))) ∙ sym (append-nil _))
]
consume_at-extends flushing w w' e =
    let (taken, more) = flush_consumer-extends w in
    (taken, ap (λ x. concat x.delivered) (sym (some_injective e)) ∙ more)
consume_at-extends checking_stop w w' e =
    ([], ap (λ x. concat x.delivered) (sym (some_injective e)) ∙ sym (append-nil _))
consume_at-extends checking_empty w w' e =
    ([], ap (λ x. concat x.delivered) (sym (some_injective e)) ∙ sym (append-nil _))
consume_at-extends returned w w' e = cc

-- All bytes of the channel are those that were pushed.
view-all :
    {c : Config} (w : Worker) (sent : List ℕ)
    → Inv c w sent
    → (view w).delivered ++ (view w).queued ≡ sent
view-all w sent v =
    sym (append_assoc (concat w.delivered) (contents w.consumer) (contents w.productor))
    ∙ v.conserved

delivers-Acts :
    {c : Config} (w w' : Worker) (sent taken : List ℕ)
    → Inv c w sent
    → Inv c w' sent
    → concat w'.delivered ≡ concat w.delivered ++ taken
    → Acts (view w) [] (view w')
delivers-Acts w w' sent taken v v' e =
    let q : List ℕ = (view w).queued in
    let q' : List ℕ = (view w').queued in
    let front : q ≡ taken ++ q' = append_cancel_left (concat w.delivered) q (taken ++ q') (
      view-all w sent v
      ∙ sym (view-all w' sent v')
      ∙ ap (λ d. d ++ q') e
      ∙ append_assoc (concat w.delivered) taken q') in
    subst (Acts (view w) [])
      (channel_eq (concat w.delivered ++ taken) (concat w'.delivered) q' q' (sym e) refl)
      (delivers taken q' front)

puts-Acts :
    {c : Config} (w w' : Worker) (sent ds : List ℕ)
    → Inv c w sent
    → Inv c w' (sent ++ ds)
    → concat w'.delivered ≡ concat w.delivered
    → Acts (view w) ds (view w')
puts-Acts w w' sent ds v v' e =
    let q : List ℕ = (view w).queued in
    let q' : List ℕ = (view w').queued in
    let behind : q ++ ds ≡ q' = append_cancel_left (concat w.delivered) (q ++ ds) q' (
      sym (append_assoc (concat w.delivered) q ds)
      ∙ ap (λ t. t ++ ds) (view-all w sent v)
      ∙ sym (view-all w' (sent ++ ds) v')
      ∙ ap (λ d. d ++ q') e) in
    subst (Acts (view w) ds)
      (channel_eq (concat w.delivered) (concat w'.delivered) (q ++ ds) q' (sym e) behind) (puts ds)

-- If buffer_size is at most 2^63 - 1, every step of a worker in a reachable state is a step of a
-- first-in first-out channel: a push puts its bytes in at the end, and any other step delivers
-- bytes from the front, or none.
pub Step-Acts :
    {c : Config} {t : AsyncType} (w w' : Worker) (sent ds : List ℕ)
    → c.buffer_size ≤ max_size
    → Reach c t w sent
    → Step c w ds w'
    → Acts (view w) ds (view w')
unfolding consume request_stop
Step-Acts {c} w w' sent _ h r (pushes ds short e) =
    let v = Reach-Inv h r in
    let (b, pushed, same) = push-eq-ok c ds w w' e in
    puts-Acts w w' sent ds v (Step-Inv (pushes ds short e) v) (ap (λ x. concat x.delivered) same)
Step-Acts w w' sent _ h r (consumes e) =
    let v = Reach-Inv h r in
    let (taken, more) = consume_at-extends w.pc w w' e in
    delivers-Acts w w' sent taken v (subst (Inv _ w') (append-nil sent) (Step-Inv (consumes e) v))
      more
Step-Acts w w' sent _ h r (stops e) =
    let v = Reach-Inv h r in
    delivers-Acts w w' sent [] v (subst (Inv _ w') (append-nil sent) (Step-Inv (stops e) v))
      (ap (λ x. concat x.delivered) e ∙ sym (append-nil _))
