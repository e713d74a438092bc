-- ===== src/Server/Config/Instance/Kept.antt =====
-- src/server/Config.hpp, `GetInstance`: what every step of a thread keeps.
use asyn_log_system.Prelude.{
  Bool-cases, ◌==◌, Option, arith, ap, refl, ◌∙◌, inr, sym, some_injective, ◌+◌, inl, subst,
  Option-cases, true, ◌⊎◌, some, ◌≢◌, false, none, ℕ, Bool, ◌≡◌,
}
use asyn_log_system.Server.Config.Instance.{
  Place, Shared, System, Reach, advance, choose, take_lock, moved, start, step, at_test, at_lock,
  locked, at_new, leaving, at_return, returned,
}

-- What the place of thread `i` says of the shared state.
unfoldable pub IsFit : ℕ → Shared → Place → Type 0
IsFit i s at_test = Unit
IsFit i s at_lock = Unit
IsFit i s locked = s.owner ≡ some i
IsFit i s at_new = (s.owner ≡ some i) × (s.instance_ ≡ none)
IsFit i s leaving = (s.owner ≡ some i) × (s.instance_ ≡ some 0)
IsFit i s at_return = s.instance_ ≡ some 0
IsFit i s (returned x) = (s.instance_ ≡ some 0) × (x ≡ some 0)

-- A thread that holds the lock.
abbrev pub is_inside : Place → Bool
is_inside at_test = false
is_inside at_lock = false
is_inside locked = true
is_inside at_new = true
is_inside leaving = true
is_inside at_return = false
is_inside (returned x) = false

abbrev pub IsOnce : Shared → Type 0
IsOnce s = ((s.instance_ ≡ none) × (s.made ≡ 0)) ⊎ ((s.instance_ ≡ some 0) × (s.made ≡ 1))

pub record Inv (y : System) : Type 0 where
  pub once : IsOnce y.shared
  pub fit : (i : ℕ) → IsFit i y.shared (y.threads i)
  pub owned : (i : ℕ) → y.shared.owner ≡ some i → is_inside (y.threads i) ≡ true

-- What a step of thread `i` from `p` does to the shared state and means for all threads.
pub record Kept (i : ℕ) (s s' : Shared) (p' : Place) : Type 0 where
  pub once : IsOnce s'
  pub fit : IsFit i s' p'
  pub others : (k : ℕ) (q : Place) → k ≢ i → IsFit k s q → IsFit k s' q
  pub owned : s'.owner ≡ some i → is_inside p' ≡ true
  pub owned_others : (k : ℕ) → k ≢ i → s'.owner ≡ some k → s.owner ≡ some k

Kept-same :
    (i : ℕ) (p : Place) (s : Shared)
    → IsOnce s
    → IsFit i s p
    → (s.owner ≡ some i → is_inside p ≡ true)
    → Kept i s s p
Kept-same i p s once fit own = record {
  once = once;
  fit = fit;
  others = λ k q ne f. f;
  owned = own;
  owned_others = λ k ne e. e;
}

once_some : (s : Shared) (x : ℕ) → IsOnce s → s.instance_ ≡ some x → s.instance_ ≡ some 0
once_some s x (inl (none_, made)) e = cc (none_, e)
once_some s x (inr (some_, made)) e = some_

once_none : (s : Shared) → IsOnce s → s.instance_ ≡ none → s.made ≡ 0
once_none s (inl (none_, made)) e = made
once_none s (inr (some_, made)) e = cc (some_, e)

-- The lock is free, or held by one thread only.
IsFit-lock :
    (i k : ℕ) (s : Shared) (q : Place)
    → s.owner ≡ none
    → IsFit k s q
    → IsFit k (record s { owner = some i }) q
unfolding IsFit
IsFit-lock i k s at_test free f = tt
IsFit-lock i k s at_lock free f = tt
IsFit-lock i k s locked free f = cc (free, f)
IsFit-lock i k s at_new free f = cc (free, f.0)
IsFit-lock i k s leaving free f = cc (free, f.0)
IsFit-lock i k s at_return free f = f
IsFit-lock i k s (returned x) free f = f

IsFit-unlock :
    (i k : ℕ) (s : Shared) (q : Place)
    → s.owner ≡ some i
    → k ≢ i
    → IsFit k s q
    → IsFit k (record s { owner = none }) q
unfolding IsFit
IsFit-unlock i k s at_test own ne f = tt
IsFit-unlock i k s at_lock own ne f = tt
IsFit-unlock i k s locked own ne f = absurd (ne (some_injective (sym f ∙ own)))
IsFit-unlock i k s at_new own ne f = absurd (ne (some_injective (sym f.0 ∙ own)))
IsFit-unlock i k s leaving own ne f = absurd (ne (some_injective (sym f.0 ∙ own)))
IsFit-unlock i k s at_return own ne f = f
IsFit-unlock i k s (returned x) own ne f = f

IsFit-new :
    (i k : ℕ) (s : Shared) (q : Place)
    → s.owner ≡ some i
    → s.instance_ ≡ none
    → k ≢ i
    → IsFit k s q
    → IsFit k (record s { instance_ = some s.made; made = s.made + 1 }) q
unfolding IsFit
IsFit-new i k s at_test own none_ ne f = tt
IsFit-new i k s at_lock own none_ ne f = tt
IsFit-new i k s locked own none_ ne f = f
IsFit-new i k s at_new own none_ ne f = absurd (ne (some_injective (sym f.0 ∙ own)))
IsFit-new i k s leaving own none_ ne f = cc (none_, f.1)
IsFit-new i k s at_return own none_ ne f = cc (none_, f)
IsFit-new i k s (returned x) own none_ ne f = cc (none_, f.0)

choose_elim :
    (P : Place → Type 0) (o : Option ℕ) (null_ other : Place)
    → (o ≡ none → P null_)
    → ((x : ℕ) → o ≡ some x → P other)
    → P (choose o null_ other)
unfolding choose
choose_elim P none null_ other first second = first refl
choose_elim P (some x) null_ other first second = second x refl

-- The two places that a test leads to.
choose-Kept :
    (i : ℕ) (null_ other : Place) (s : Shared)
    → IsOnce s
    → (s.instance_ ≡ none → IsFit i s null_)
    → (s.instance_ ≡ some 0 → IsFit i s other)
    → (s.owner ≡ some i → (is_inside null_ ≡ true) × (is_inside other ≡ true))
    → Kept i s s (choose s.instance_ null_ other)
choose-Kept i null_ other s once first second own =
    choose_elim (Kept i s s) s.instance_ null_ other
      (λ e. Kept-same i null_ s once (first e) (λ o. (own o).0))
      (λ x e. Kept-same i other s once (second (once_some s x once e)) (λ o. (own o).1))

take_lock-Kept :
    (i : ℕ) (p' : Place) (s s' : Shared)
    → IsOnce s
    → take_lock s.owner i s ≡ some (p', s')
    → Kept i s s' p'
unfolding take_lock IsFit
take_lock-Kept i p' s s' once e = elim (Option-cases s.owner) [
  | inr (k, held) ↦ cc (rw held at e)
  | inl free ↦
      subst (λ x. Kept i s (x.1) (x.0)) (some_injective (rw free at e))
        (record {
          once = once;
          fit = refl;
          others = λ k q ne f. IsFit-lock i k s q free f;
          owned = λ o. refl;
          owned_others = λ k ne o. absurd (ne (sym (some_injective o)));
        })
]

advance-Kept :
    (i : ℕ) (p p' : Place) (s s' : Shared)
    → IsOnce s
    → IsFit i s p
    → (s.owner ≡ some i → is_inside p ≡ true)
    → advance i p s ≡ some (p', s')
    → Kept i s s' p'
unfolding advance IsFit
advance-Kept i at_test p' s s' once fit own e =
    subst (λ x. Kept i s (x.1) (x.0)) (some_injective e)
      (choose-Kept i at_lock at_return s once (λ none_. tt) (λ some_. some_) (λ o. cc (own o)))
advance-Kept i at_lock p' s s' once fit own e = take_lock-Kept i p' s s' once e
advance-Kept i locked p' s s' once fit own e =
    subst (λ x. Kept i s (x.1) (x.0)) (some_injective e)
      (choose-Kept i at_new leaving s once (λ none_. (fit, none_)) (λ some_. (fit, some_))
        (λ o. (refl, refl)))
advance-Kept i at_new p' s s' once fit own e =
    let made = once_none s once fit.1 in
    subst (λ x. Kept i s (x.1) (x.0)) (some_injective e)
      (record {
        once = inr (ap some made, omega (arith, made));
        fit = (fit.0, ap some made);
        others = λ k q ne f. IsFit-new i k s q fit.0 fit.1 ne f;
        owned = λ o. refl;
        owned_others = λ k ne o. o;
      })
advance-Kept i leaving p' s s' once fit own e =
    subst (λ x. Kept i s (x.1) (x.0)) (some_injective e)
      (record {
        once = once;
        fit = fit.1;
        others = λ k q ne f. IsFit-unlock i k s q fit.0 ne f;
        owned = λ o. cc o;
        owned_others = λ k ne o. cc o;
      })
advance-Kept i at_return p' s s' once fit own e =
    subst (λ x. Kept i s (x.1) (x.0)) (some_injective e)
      (Kept-same i (returned s.instance_) s once (fit, fit) (λ o. cc (own o)))
advance-Kept i (returned x) p' s s' once fit own e = cc e

moved-Inv :
    (y : System) (i : ℕ) (p : Place) (s : Shared)
    → Inv y
    → Kept i y.shared s p
    → Inv (moved i p s y)
moved-Inv y i p s v kept = record {
  once = kept.once;
  fit = λ k. elim (Bool-cases (i == k)) [
    | inl same ↦ rw same (subst (λ n. IsFit n s p) (eq_of same) kept.fit)
    | inr other ↦ rw other (kept.others k (y.threads k) (ne_of other) (v.fit k))
  ];
  owned = λ k o. elim (Bool-cases (i == k)) [
    | inl same ↦ rw same (kept.owned (subst (λ n. s.owner ≡ some n) (sym (eq_of same)) o))
    | inr other ↦ rw other (v.owned k (kept.owned_others k (ne_of other) o))
  ];
}
  where
    eq_of : {a b : ℕ} → (a == b) ≡ true → a ≡ b
    eq_of e = ground arith

    ne_of : {a b : ℕ} → (a == b) ≡ false → b ≢ a
    ne_of e = ground arith

pub Reach-Inv : (y : System) → Reach y → Inv y
unfolding IsFit
Reach-Inv _ start = record { once = inl (refl, refl); fit = λ i. tt; owned = λ i o. cc o }
Reach-Inv _ (step y i p s r e) =
    let v = Reach-Inv y r in
    moved-Inv y i p s v (advance-Kept i (y.threads i) p y.shared s v.once (v.fit i) (v.owned i) e)
