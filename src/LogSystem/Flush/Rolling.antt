-- ===== src/LogSystem/Flush/Rolling.antt =====
-- logSystem/logsCode/LogFlush.hpp, `RollFileFlush`: what the closed files and the open one hold.
use asyn_log_system.Prelude.{
  ℕ, suc, ◌+◌, ◌≤◌, ◌<◌, ◌≡◌, ◌≢◌, refl, sym, ap, ◌∙◌, List, [], ◌∷◌, ◌++◌, length, map, some, ok,
  add_size, size_mod, arith, length-append,
}
use asyn_log_system.Prelude.Text.{Text}
use asyn_log_system.LogSystem.Config.{Config}
use asyn_log_system.LogSystem.Flush.{Logs, Stream, Stdio, write_stream, RollFileFlush, write_roll}
use asyn_log_system.LogSystem.Flush.Chunks.{AllLong}
use asyn_log_system.LogSystem.Flush.Names.{Tm, create_filename, create_filename_injective}
use asyn_log_system.LogSystem.Flush.Streams.{total, write_stream-Wrote}

-- Names made one after the other, with counters from `k` on.
abbrev pub IsSeries : Text → ℕ → List Text → Type 0
IsSeries base k [] = Unit
IsSeries base k (n ∷ ns) = ((t : Tm) × (n ≡ create_filename base t k)) × IsSeries base (suc k) ns

-- Names that are still to be made belong to files that are empty or not there.
abbrev pub IsFresh : Text → ℕ → Logs → Type 0
IsFresh base m l = (t : Tm) (k : ℕ) → m ≤ k → l.content (create_filename base t k) ≡ []

-- No rolling file has this name.
abbrev pub IsApart : Text → Text → Type 0
IsApart name base = (t : Tm) (k : ℕ) → name ≢ create_filename base t k

-- The files that were closed, in the order of their counters, and what they hold; and the open one
-- with what its stream keeps back.
pub record IsRolling (max : ℕ) (r : RollFileFlush) (st : Stream) (l : Logs)
    (older closed : List Text) (open_one : Text) : Type 0 where
  pub is_open : r.stream ≡ some st
  pub limit : r.max_size ≡ max
  pub counted : r.cnt ≡ 2 + length older
  pub made_at : Tm
  pub named : st.name ≡ create_filename r.basename made_at (1 + length older)
  pub series : IsSeries r.basename 1 older
  pub held : map l.content older ≡ closed
  pub full : AllLong max closed
  pub current : total st l ≡ open_one
  pub fresh : IsFresh r.basename r.cnt l
  pub size : r.cur_size ≡ length open_one

-- A change of one file is not seen in files with other counters.
pub map-others :
    (base : Text) (k m : ℕ) (name : Text) (t : Tm) (l l' : Logs) (older : List Text)
    → name ≡ create_filename base t m
    → k + length older ≤ m
    → ((q : Text) → q ≢ name → l'.content q ≡ l.content q)
    → IsSeries base k older
    → map l'.content older ≡ map l.content older
map-others base k m name t l l' [] e below same made = refl
map-others base k m name t l l' (n ∷ older) e below same ((t', e'), made) =
    let ne : n ≢ name = λ h.
      absurd
        (omega (arith, below, create_filename_injective base base t' t k m (sym e' ∙ h ∙ e))) in
    ap (λ s. s ∷ map l'.content older) (same n ne)
    ∙ ap (◌∷◌ (l.content n))
        (map-others base (suc k) m name t l l' older e (omega (arith, below)) same made)

-- The flusher after a write.
abbrev pub after_write : Config → Stdio → Text → RollFileFlush → Stream → Logs → RollFileFlush
after_write c io s r st l = record r {
  stream = some (write_stream c io s st l).0;
  cur_size = add_size r.cur_size (length s);
}

pub write_roll-open :
    (c : Config) (io : Stdio) (s : Text) (r : RollFileFlush) (st : Stream) (l : Logs)
    → r.stream ≡ some st
    → write_roll c io s r l ≡ ok (after_write c io s r st l, (write_stream c io s st l).1)
unfolding write_roll
write_roll-open c io s r st l e = rw e refl

-- What a flush does once the right file is open.
pub write-IsRolling :
    (c : Config) (io : Stdio) (s : Text) (max : ℕ) (r : RollFileFlush) (st : Stream) (l : Logs)
    (older closed : List Text) (open_one : Text)
    → IsRolling max r st l older closed open_one
    → length (open_one ++ s) < size_mod
    → IsRolling max
        (after_write c io s r st l)
        (write_stream c io s st l).0
        (write_stream c io s st l).1
        older
        closed
        (open_one ++ s)
write-IsRolling c io s max r st l older closed open_one v short =
    let w = write_stream-Wrote c io s st l in
    let l' : Logs = (write_stream c io s st l).1 in
    let all : length (open_one ++ s) ≡ length open_one + length s = length-append open_one s in
    record {
      is_open = refl;
      limit = v.limit;
      counted = v.counted;
      made_at = v.made_at;
      named = w.name ∙ v.named;
      series = v.series;
      held =
          map-others r.basename 1 (1 + length older) st.name v.made_at l l' older v.named
            (omega arith) w.others v.series
          ∙ v.held;
      full = v.full;
      current = w.added ∙ ap (λ t. t ++ s) v.current;
      fresh = λ t k le.
          w.others (create_filename r.basename t k) (λ h. absurd (
            omega (
              arith,
              v.counted,
              create_filename_injective r.basename r.basename t v.made_at k (1 + length older)
                  (h ∙ v.named),
            )))
          ∙ v.fresh t k le;
      size = omega (arith, all, short, v.size);
    }
