-- ===== src/LogSystem/Flush/Files.antt =====
-- logSystem/logsCode/LogFlush.hpp, `RollFileFlush`: how a sequence of flushes is cut into files.
use asyn_log_system.LogSystem.Flush.Opening.{first_flush-IsRolling, flush_roll-IsRolling}
use asyn_log_system.Prelude.{
  ℕ, ◌+◌, ◌<◌, ◌≡◌, refl, ap, ◌∙◌, true, List, [], ◌∷◌, ◌++◌, length, map, concat, ok, leb,
  size_mod, arith, length-append,
}
use asyn_log_system.Prelude.Text.{Text}
use asyn_log_system.LogSystem.Flush.Chunks.{chunks_from, concat-chunks_from, fits, cut_lem}
use asyn_log_system.LogSystem.Config.{Config}
use asyn_log_system.LogSystem.Flush.{Logs, Stream, Stdio, RollFileFlush, roll_over, flush_rolls}
use asyn_log_system.LogSystem.Flush.Names.{text_of, Tm}
use asyn_log_system.LogSystem.Flush.Rolling.{IsFresh, IsRolling}

module _ (io : Stdio) (opens : (name : Text) → io.can_open name ≡ true) where
  flush_rolls-IsRolling :
      (c : Config) (flushes : List (Tm × Text)) (max : ℕ) (r : RollFileFlush) (st : Stream)
      (l : Logs) (older closed : List Text) (cur : Text)
      → IsRolling max r st l older closed cur
      → r.cnt + length flushes < size_mod
      → length cur + length (concat (map text_of flushes)) < size_mod
      → (r' : RollFileFlush) × (st' : Stream) × (l' : Logs) × (older' closed' : List Text)
        × (cur' : Text) × (flush_rolls c io flushes r l ≡ ok (r', l'))
        × IsRolling max r' st' l' older' closed' cur'
        × (closed' ++ cur' ∷ [] ≡ closed ++ chunks_from max cur (map text_of flushes))
  unfolding flush_rolls chunks_from
  flush_rolls-IsRolling c [] max r st l older closed cur v few short =
      (r, st, l, older, closed, cur, refl, v, refl)
  flush_rolls-IsRolling c ((now, s) ∷ rest) max r st l older closed cur v few short =
      let sizes = length-append s (concat (map text_of rest)) in
      let (r1, st1, l1, older1, e1, v1, le, base, others) =
        flush_roll-IsRolling io opens c now s max r st l older closed cur v (omega (arith, few))
          (omega (arith, short, sizes)) in
      let (r2, st2, l2, older2, closed2, cur2, e2, v2, cut) =
        flush_rolls-IsRolling c rest max r1 st1 l1 older1 _ _ v1 (omega (arith, few, le)) (
          fits (leb max (length cur)) cur s (concat (map text_of rest))
            (omega (arith, short, sizes))) in
      (
        r2,
        st2,
        l2,
        older2,
        closed2,
        cur2,
        rw (e1, e2),
        v2,
        cut ∙ cut_lem (leb max (length cur)) max cur s closed (map text_of rest),
      )

  -- A rolling flusher that starts on names of which no file holds anything, and that can open
  -- every file, takes any sequence of flushes at any times: the closed files, in the order of
  -- their counters, and then the open file with what its stream keeps back hold exactly the chunks
  -- of a reference that puts the texts together until they have the maximal size or more and goes
  -- on with a new chunk at the next text, so that together they hold all that was flushed, in
  -- order; the numbers of files and of bytes are below 2^64.
  pub flush_rolls-chunks_from :
      (c : Config) (now : Tm) (s : Text) (rest : List (Tm × Text)) (name : Text) (max : ℕ)
      (l : Logs)
      → IsFresh name 1 l
      → 2 + length rest < size_mod
      → length (s ++ concat (map text_of rest)) < size_mod
      → (r' : RollFileFlush) × (st' : Stream) × (l' : Logs) × (older closed : List Text)
        × (open_one : Text) × (flush_rolls c io ((now, s) ∷ rest) (roll_over name max) l
            ≡ ok (r', l'))
        × IsRolling max r' st' l' older closed open_one
        × (closed ++ open_one ∷ [] ≡ chunks_from max s (map text_of rest))
        × (concat (closed ++ open_one ∷ []) ≡ s ++ concat (map text_of rest))
  unfolding flush_rolls
  flush_rolls-chunks_from c now s rest name max l fresh few short =
      let sizes = length-append s (concat (map text_of rest)) in
      let (r1, st1, l1, e1, v1, cnt, base, others) =
        first_flush-IsRolling io opens c now s name max l fresh (omega (arith, short, sizes)) in
      let (r2, st2, l2, older2, closed2, cur2, e2, v2, cut) =
        flush_rolls-IsRolling c rest max r1 st1 l1 [] [] s v1 (omega (arith, few, cnt))
          (omega (arith, short, sizes)) in
      (
        r2,
        st2,
        l2,
        older2,
        closed2,
        cur2,
        rw (e1, e2),
        v2,
        cut,
        ap concat cut ∙ concat-chunks_from max s (map text_of rest),
      )
