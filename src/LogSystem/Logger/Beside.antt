-- ===== src/LogSystem/Logger/Beside.antt =====
-- logSystem/logsCode/AsyncLogger.hpp and LogFlush.hpp: a logger with a log file and with rolling log
-- files. Each call of the callback writes to both.
use asyn_log_system.LogSystem.Flush.Opening.{first_flush-IsRolling, flush_roll-IsRolling}
use asyn_log_system.LogSystem.Flush.Streams.{write_stream-Wrote}
use asyn_log_system.LogSystem.Flush.Streams.{total}
use asyn_log_system.LogSystem.Flush.Names.{text_of, create_filename, Tm}
use asyn_log_system.LogSystem.Flush.Chunks.{concat-chunks_from, cut_lem, fits, chunks_from}
use asyn_log_system.LogSystem.Flush.Rolling.{IsFresh, IsSeries, IsRolling, IsApart}
use asyn_log_system.Prelude.Text.{Text}
use asyn_log_system.LogSystem.Config.{Config}
use asyn_log_system.Prelude.{
  append_assoc, leb, subst, arith, length-append, append-nil, refl, concat, size_mod, suc, ◌<◌, [],
  sym, some, length, ◌∷◌, ◌++◌, ok, map, ap, ◌+◌, ◌∙◌, ◌≢◌, true, List, ◌≡◌, ℕ,
}
use asyn_log_system.LogSystem.Flush.{
  roll_over, flush_file, Stream, Stdio, RollFileFlush, Logs, flush_roll, write_stream,
}
use asyn_log_system.LogSystem.Logger.{flush, to_file, to_roll, real_flush, real_flushes}

map-apart :
    (base name : Text) (k : ℕ) (l l' : Logs) (older : List Text)
    → IsApart name base
    → ((q : Text) → q ≢ name → l'.content q ≡ l.content q)
    → IsSeries base k older
    → map l'.content older ≡ map l.content older
map-apart base name k l l' [] apart same series = refl
map-apart base name k l l' (n ∷ older) apart same ((t, e), series) =
    ap (λ s. s ∷ map l'.content older) (same n (λ x. apart t k (sym x ∙ e)))
    ∙ ap (◌∷◌ (l.content n)) (map-apart base name (suc k) l l' older apart same series)

-- A write to another file leaves rolling files as they are.
IsRolling-apart :
    (max : ℕ) (r : RollFileFlush) (st : Stream) (l l' : Logs) (older closed : List Text)
    (cur name : Text)
    → IsRolling max r st l older closed cur
    → IsApart name r.basename
    → ((q : Text) → q ≢ name → l'.content q ≡ l.content q)
    → IsRolling max r st l' older closed cur
IsRolling-apart max r st l l' older closed cur name v apart same = record {
  is_open = v.is_open;
  limit = v.limit;
  counted = v.counted;
  made_at = v.made_at;
  named = v.named;
  series = v.series;
  held = map-apart r.basename name 1 l l' older apart same v.series ∙ v.held;
  full = v.full;
  current =
      ap (λ s. s ++ st.pending)
        (same st.name (λ x. apart v.made_at (1 + length older) (sym x ∙ v.named)))
      ∙ v.current;
  fresh = λ t k le. same (create_filename r.basename t k) (λ x. apart t k (sym x)) ∙ v.fresh t k le;
  size = v.size;
}

module _ (c : Config) (io : Stdio) (opens : (name : Text) → io.can_open name ≡ true) where
  -- One call of the callback, with the file first.
  real_flush-both :
      (now : Tm) (s name : Text) (st : Stream) (r r' : RollFileFlush) (l l' : Logs)
      → flush_roll c io now s r (write_stream c io s st l).1 ≡ ok (r', l')
      → real_flush c io now s
          (to_file (record { filename = name; stream = some st }) ∷ to_roll r ∷ [])
          l
        ≡ ok (
          to_file (record { filename = name; stream = some (write_stream c io s st l).0 })
              ∷ to_roll r'
              ∷ [],
          l',
        )
  unfolding real_flush flush flush_file
  real_flush-both now s name st r r' l l' e = rw e

  -- The open file and the rolling files, through any number of calls.
  real_flushes-rest :
      (flushes : List (Tm × Text)) (max : ℕ) (name : Text) (st : Stream) (r : RollFileFlush)
      (rst : Stream) (l : Logs) (older closed : List Text) (cur : Text)
      → IsRolling max r rst l older closed cur
      → IsApart st.name r.basename
      → r.cnt + length flushes < size_mod
      → length cur + length (concat (map text_of flushes)) < size_mod
      → (st' : Stream) × (r' : RollFileFlush) × (rst' : Stream) × (l' : Logs) × (older'
          closed' : List Text)
        × (cur' : Text) × (real_flushes c io flushes
              (to_file (record { filename = name; stream = some st }) ∷ to_roll r ∷ [])
              l
            ≡ ok (to_file (record { filename = name; stream = some st' }) ∷ to_roll r' ∷ [], l'))
        × (total st' l' ≡ total st l ++ concat (map text_of flushes))
        × IsRolling max r' rst' l' older' closed' cur'
        × (closed' ++ cur' ∷ [] ≡ closed ++ chunks_from max cur (map text_of flushes))
  unfolding real_flushes chunks_from
  real_flushes-rest [] max name st r rst l older closed cur v apart few short =
      (st, r, rst, l, older, closed, cur, refl, sym (append-nil (total st l)), v, refl)
  real_flushes-rest ((now, s) ∷ rest) max name st r rst l older closed cur v apart few short =
      let sizes = length-append s (concat (map text_of rest)) in
      let w = write_stream-Wrote c io s st l in
      let st1 : Stream = (write_stream c io s st l).0 in
      let l1 : Logs = (write_stream c io s st l).1 in
      let v1 = IsRolling-apart max r rst l l1 older closed cur st.name v apart w.others in
      let (r2, rst2, l2, older2, e2, v2, le, base, others) =
        flush_roll-IsRolling io opens c now s max r rst l1 older closed cur v1 (omega (arith, few))
          (omega (arith, short, sizes)) in
      let apart1 : IsApart st1.name r.basename =
        subst (λ n. IsApart n r.basename) (sym w.name) apart in
      let (st3, r3, rst3, l3, older3, closed3, cur3, e3, t3, v3, cut) =
        real_flushes-rest rest max name st1 r2 rst2 l2 older2 _ _ v2
          (subst (IsApart st1.name) (sym base) apart1) (omega (arith, few, le))
          (fits (leb max (length cur)) cur s (concat (map text_of rest))
            (omega (arith, short, sizes))) in
      (
        st3,
        r3,
        rst3,
        l3,
        older3,
        closed3,
        cur3,
        rw (real_flush-both now s name st r r2 l l2 e2, e3),
        t3
            ∙ ap (λ x. (x ++ st1.pending) ++ concat (map text_of rest)) (others st1.name apart1)
            ∙ ap (λ x. x ++ concat (map text_of rest)) w.added
            ∙ append_assoc (total st l) s (concat (map text_of rest)),
        v3,
        cut ∙ cut_lem (leb max (length cur)) max cur s closed (map text_of rest),
      )

  -- From the first call on.
  pub real_flushes-both :
      (now : Tm) (s : Text) (rest : List (Tm × Text)) (max : ℕ) (name base : Text) (st : Stream)
      (l : Logs)
      → IsFresh base 1 l
      → IsApart st.name base
      → 2 + length rest < size_mod
      → length s + length (concat (map text_of rest)) < size_mod
      → (st' : Stream) × (r' : RollFileFlush) × (rst' : Stream) × (l' : Logs) × (older closed : List
          Text)
        × (cur : Text) × (real_flushes c io
              ((now, s) ∷ rest)
              (to_file (record { filename = name; stream = some st })
                ∷ to_roll (roll_over base max)
                ∷ [])
              l
            ≡ ok (to_file (record { filename = name; stream = some st' }) ∷ to_roll r' ∷ [], l'))
        × (total st' l' ≡ total st l ++ (s ++ concat (map text_of rest)))
        × IsRolling max r' rst' l' older closed cur
        × (concat (closed ++ cur ∷ []) ≡ s ++ concat (map text_of rest))
  unfolding real_flushes
  real_flushes-both now s rest max name base st l fresh apart few short =
      let w = write_stream-Wrote c io s st l in
      let st1 : Stream = (write_stream c io s st l).0 in
      let l1 : Logs = (write_stream c io s st l).1 in
      let fresh1 : IsFresh base 1 l1 =
        λ t k le. w.others (create_filename base t k) (λ x. apart t k (sym x)) ∙ fresh t k le in
      let (r2, rst2, l2, e2, v2, cnt, based, others) =
        first_flush-IsRolling io opens c now s base max l1 fresh1 (omega (arith, short)) in
      let apart1 : IsApart st1.name base = subst (λ n. IsApart n base) (sym w.name) apart in
      let (st3, r3, rst3, l3, older3, closed3, cur3, e3, t3, v3, cut) =
        real_flushes-rest rest max name st1 r2 rst2 l2 [] [] s v2
          (subst (IsApart st1.name) (sym based) apart1) (omega (arith, few, cnt))
          (omega (arith, short)) in
      (
        st3,
        r3,
        rst3,
        l3,
        older3,
        closed3,
        cur3,
        rw (real_flush-both now s name st (roll_over base max) r2 l l2 e2, e3),
        t3
            ∙ ap (λ x. (x ++ st1.pending) ++ concat (map text_of rest)) (others st1.name apart1)
            ∙ ap (λ x. x ++ concat (map text_of rest)) w.added
            ∙ append_assoc (total st l) s (concat (map text_of rest)),
        v3,
        ap concat cut ∙ concat-chunks_from max s (map text_of rest),
      )
