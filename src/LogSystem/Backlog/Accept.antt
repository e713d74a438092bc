-- ===== src/LogSystem/Backlog/Accept.antt =====
-- logSystem/backlog/ServerBackupLog.hpp, `start_service`: the threads get the lock in any order.
use asyn_log_system.Prelude.{
  ◌++◌, refl, ok, length-append, [], ◌∙◌, map, ◌+◌, ◌≤◌, true, concat, ap, ◌∷◌, subst, length,
  Option, arith, ℕ, ◌≡◌, List,
}
use mathlib.Core.List.{Permᴰ}
use asyn_log_system.LogSystem.Backlog.{LogFile, serve_all, start_service}
use asyn_log_system.LogSystem.Backlog.Store.{
  Sent, received, entry_of, AllShort, IsShort, serve_all-stored,
}

IsShort-same : (a b : Sent) → a ≡ b → IsShort (a.2) → IsShort (b.2)
IsShort-same a b e v = subst (λ x. IsShort (x.2)) e v

AllShort-perm : (xs ys : List Sent) → Permᴰ xs ys → AllShort xs → AllShort ys
AllShort-perm _ _ Permᴰ.nil v = tt
AllShort-perm _ _ (Permᴰ.cons {a} {b} {l₁ = xs} {l₂ = ys} e r) (v, vs) =
    (IsShort-same a b e v, AllShort-perm xs ys r vs)
AllShort-perm _ _ (Permᴰ.swap {a} {b} {a'} {b'} e1 e2) (v, (w, vs)) =
    (IsShort-same b a' e2 w, (IsShort-same a b' e1 v, vs))
AllShort-perm _ _ (Permᴰ.trans {l₁ = xs} {l₂ = ys} {l₃ = zs} r1 r2) v =
    AllShort-perm ys zs r2 (AllShort-perm xs ys r1 v)

-- How many bytes the entries have together.
abbrev pub total : List Sent → ℕ
total [] = 0
total (x ∷ xs) = length (entry_of x) + total xs

total-concat : (xs : List Sent) → length (concat (map entry_of xs)) ≡ total xs
total-concat [] = refl
total-concat (x ∷ xs) =
    omega (arith, length-append (entry_of x) (concat (map entry_of xs)), total-concat xs)

total-perm : (xs ys : List Sent) → Permᴰ xs ys → total xs ≡ total ys
total-perm _ _ Permᴰ.nil = refl
total-perm _ _ (Permᴰ.cons {a} {b} {l₁ = xs} {l₂ = ys} e r) =
    omega (arith, ap (λ x. length (entry_of x)) e, total-perm xs ys r)
total-perm _ _ (Permᴰ.swap {a} {b} {a'} {b'} e1 e2) =
    omega (arith, ap (λ x. length (entry_of x)) e1, ap (λ x. length (entry_of x)) e2)
total-perm _ _ (Permᴰ.trans {l₁ = xs} {l₂ = ys} {l₃ = zs} r1 r2) =
    total-perm xs ys r1 ∙ total-perm ys zs r2

-- If one read brings each accepted message whole, the messages are shorter than 1024 bytes and
-- hold no 0 byte, and the log file can be opened and has room for all of them, then the threads
-- that were started append, in whatever order they get the lock, the client's address and port and
-- the message of each connection that was accepted.
pub start_service-stored :
    (accepts : List (Option Sent)) (order : List Sent) (f : LogFile)
    → Permᴰ (start_service accepts) order
    → AllShort (start_service accepts)
    → f.opens ≡ true
    → total (start_service accepts) ≤ f.room
    → (f' : LogFile) × (serve_all (map received order) f ≡ ok f')
      × (f'.content ≡ f.content ++ concat (map entry_of order))
start_service-stored accepts order f perm short opens room =
    serve_all-stored order f (AllShort-perm (start_service accepts) order perm short) opens
      (omega (arith, total-concat order, total-perm (start_service accepts) order perm))
