-- ===== src/LogSystem/Flush/Opening.antt =====
-- logSystem/logsCode/LogFlush.hpp, `RollFileFlush`: which file a flush goes to.
use asyn_log_system.Prelude.{
  ℕ, suc, ◌+◌, ◌≤◌, ◌<◌, ◌≡◌, ◌≢◌, refl, ap, ◌∙◌, inl, inr, subst, true, List, [], ◌∷◌, ◌++◌,
  length, map, some, ok, leb, if◌then◌else◌, add_size, size_mod, arith, append-nil, Bool-cases,
  length-append,
}
use asyn_log_system.Prelude.Text.{Text}
use asyn_log_system.LogSystem.Flush.Chunks.{AllLong-snoc}
use asyn_log_system.LogSystem.Config.{Config}
use asyn_log_system.LogSystem.Flush.{
  write_stream, Logs, Stream, Stdio, append_to, fopen, fclose, RollFileFlush, roll_over, needs_file,
  init_log_file, flush_roll,
}
use asyn_log_system.LogSystem.Flush.Names.{Tm, create_filename, create_filename_injective}
use asyn_log_system.LogSystem.Flush.Streams.{write_stream-Wrote, append_to_self, append_to_ne}
use asyn_log_system.LogSystem.Flush.Rolling.{
  IsApart, IsSeries, IsFresh, IsRolling, map-others, write_roll-open, write-IsRolling, after_write,
}

map-snoc :
    (f : Text → Text) (xs : List Text) (y : Text) → map f (xs ++ y ∷ []) ≡ map f xs ++ f y ∷ []
map-snoc f [] y = refl
map-snoc f (x ∷ xs) y = ap (◌∷◌ (f x)) (map-snoc f xs y)

length-snoc : (xs : List Text) (y : Text) → length (xs ++ y ∷ []) ≡ 1 + length xs
length-snoc xs y = omega (arith, length-append xs (y ∷ []))

IsSeries-snoc :
    (base : Text) (k : ℕ) (ns : List Text) (t : Tm) (name : Text)
    → IsSeries base k ns
    → name ≡ create_filename base t (k + length ns)
    → IsSeries base k (ns ++ name ∷ [])
IsSeries-snoc base k [] t name made e =
    ((t, subst (λ m. name ≡ create_filename base t m) (omega arith) e), tt)
IsSeries-snoc base k (n ∷ ns) t name (first, made) e = (
  first,
  IsSeries-snoc base (suc k) ns t name made
      (subst (λ m. name ≡ create_filename base t m) (omega arith) e),
)

-- The state after a new file has been opened.
abbrev next_file : Tm → RollFileFlush → RollFileFlush
next_file now r = record r {
  stream = some (record { name = create_filename r.basename now r.cnt; pending = [] });
  cnt = add_size r.cnt 1;
  cur_size = 0;
}

-- The test is one of the size of the open file.
needs_file-full :
    (max : ℕ) (r : RollFileFlush) (st : Stream) (l : Logs) (older closed : List Text) (cur : Text)
    → IsRolling max r st l older closed cur
    → needs_file r ≡ leb max (length cur)
unfolding needs_file
needs_file-full max r st l older closed cur v = rw (v.is_open, v.limit, v.size)

module _ (io : Stdio) (opens : (name : Text) → io.can_open name ≡ true) where
  fopen-some : (name : Text) → fopen io name ≡ some (record { name = name; pending = [] })
  unfolding fopen
  fopen-some name = rw (opens name) refl

  -- The open file is closed, and the next one is opened.
  next_file-IsRolling :
      (now : Tm) (max : ℕ) (r : RollFileFlush) (st : Stream) (l : Logs) (older closed : List Text)
      (cur : Text)
      → IsRolling max r st l older closed cur
      → r.cnt + 1 < size_mod
      → max ≤ length cur
      → IsRolling max
          (next_file now r)
          (record { name = create_filename r.basename now r.cnt; pending = [] })
          (append_to st.name st.pending l)
          (older ++ st.name ∷ [])
          (closed ++ cur ∷ [])
          []
  next_file-IsRolling now max r st l older closed cur v few long =
      let l' : Logs = append_to st.name st.pending l in
      let others : (q : Text) → q ≢ st.name → l'.content q ≡ l.content q =
        λ q ne. append_to_ne st.name st.pending q l ne in
      let one_more = length-snoc older st.name in
      let unused : (t : Tm) (k : ℕ) → r.cnt ≤ k → l'.content (create_filename r.basename t k) ≡ [] =
        λ t k le.
          others (create_filename r.basename t k) (λ h. absurd (
            omega (
              arith,
              v.counted,
              create_filename_injective r.basename r.basename t v.made_at k (1 + length older)
                  (h ∙ v.named),
            )))
          ∙ v.fresh t k le in
      record {
        is_open = refl;
        limit = v.limit;
        counted = omega (arith, v.counted, one_more);
        made_at = now;
        named = ap (create_filename r.basename now) (omega (arith, v.counted, one_more));
        series = IsSeries-snoc r.basename 1 older v.made_at st.name v.series v.named;
        held =
            map-snoc l'.content older st.name
            ∙ ap (λ ts. ts ++ l'.content st.name ∷ [])
                (map-others r.basename 1 (1 + length older) st.name v.made_at l l' older v.named
                    (omega arith) others v.series
                  ∙ v.held)
            ∙ ap (λ t. closed ++ t ∷ []) (append_to_self st.name st.pending l ∙ v.current);
        full = AllLong-snoc max closed cur v.full long;
        current = append-nil _ ∙ unused now r.cnt (omega arith);
        fresh = λ t k le. unused t k (omega (arith, few));
        size = refl;
      }

  -- The file of the next flush, by the size of the open one.
  pub flush_roll-IsRolling :
      (c : Config) (now : Tm) (s : Text) (max : ℕ) (r : RollFileFlush) (st : Stream) (l : Logs)
      (older closed : List Text) (cur : Text)
      → IsRolling max r st l older closed cur
      → r.cnt + 1 < size_mod
      → length cur + length s < size_mod
      → (r' : RollFileFlush) × (st' : Stream) × (l' : Logs) × (older' : List Text) × (flush_roll c
            io now s r l
          ≡ ok (r', l'))
        × IsRolling max r' st' l' older'
            (if leb max (length cur) then closed ++ cur ∷ [] else closed)
            (if leb max (length cur) then s else cur ++ s)
        × (r'.cnt ≤ r.cnt + 1)
        × (r'.basename ≡ r.basename)
        × ((q : Text) → IsApart q r.basename → l'.content q ≡ l.content q)
  unfolding flush_roll init_log_file fclose
  flush_roll-IsRolling c now s max r st l older closed cur v few short =
      elim (Bool-cases (leb max (length cur))) [
        | inl full ↦
            let r1 : RollFileFlush = next_file now r in
            let st1 : Stream = record {
              name = create_filename r.basename now r.cnt;
              pending = [];
            } in
            let l1 : Logs = append_to st.name st.pending l in
            (
              after_write c io s r1 st1 l1,
              (write_stream c io s st1 l1).0,
              (write_stream c io s st1 l1).1,
              older ++ st.name ∷ [],
              rw (
                needs_file-full max r st l older closed cur v ∙ full,
                fopen-some (create_filename r.basename now r.cnt),
                v.is_open,
                write_roll-open c io s r1 st1 l1 refl,
              ),
              rw full (
                  write-IsRolling c io s max r1 st1 l1 (older ++ st.name ∷ []) (closed ++ cur ∷ [])
                    []
                    (next_file-IsRolling now max r st l older closed cur v few
                      (ground (arith, full)))
                    (omega (arith, short))),
              omega arith,
              refl,
              (λ q apart.
                  (write_stream-Wrote c io s st1 l1).others q (apart now r.cnt)
                  ∙ append_to_ne st.name st.pending q l
                      (λ e. apart v.made_at (1 + length older) (e ∙ v.named))),
            )
        | inr room ↦ (
          after_write c io s r st l,
          (write_stream c io s st l).0,
          (write_stream c io s st l).1,
          older,
          rw (
            needs_file-full max r st l older closed cur v ∙ room,
            write_roll-open c io s r st l v.is_open,
          ),
          rw room (
              write-IsRolling c io s max r st l older closed cur v
                (omega (arith, short, length-append cur s))),
          omega arith,
          refl,
          (λ q apart.
              (write_stream-Wrote c io s st l).others q
                (λ e. apart v.made_at (1 + length older) (e ∙ v.named))),
        )
      ]

  -- The first flush opens the first file.
  first_file-IsRolling :
      (now : Tm) (name : Text) (max : ℕ) (l : Logs)
      → IsFresh name 1 l
      → IsRolling max
          (next_file now (roll_over name max))
          (record { name = create_filename name now 1; pending = [] })
          l
          []
          []
          []
  unfolding roll_over
  first_file-IsRolling now name max l fresh = record {
    is_open = refl;
    limit = refl;
    counted = refl;
    made_at = now;
    named = refl;
    series = tt;
    held = refl;
    full = tt;
    current = append-nil _ ∙ fresh now 1 (omega arith);
    fresh = λ t k le. fresh t k (omega arith);
    size = refl;
  }

  -- The first flush.
  pub first_flush-IsRolling :
      (c : Config) (now : Tm) (s name : Text) (max : ℕ) (l : Logs)
      → IsFresh name 1 l
      → length s < size_mod
      → (r' : RollFileFlush) × (st' : Stream) × (l' : Logs) × (flush_roll c io now s
            (roll_over name max)
            l
          ≡ ok (r', l'))
        × IsRolling max r' st' l' [] [] s
        × (r'.cnt ≡ 2)
        × (r'.basename ≡ name)
        × ((q : Text) → IsApart q name → l'.content q ≡ l.content q)
  unfolding flush_roll init_log_file fclose needs_file roll_over
  first_flush-IsRolling c now s name max l fresh short =
      let r0 : RollFileFlush = next_file now (roll_over name max) in
      let st0 : Stream = record { name = create_filename name now 1; pending = [] } in
      (
        after_write c io s r0 st0 l,
        (write_stream c io s st0 l).0,
        (write_stream c io s st0 l).1,
        rw (fopen-some (create_filename name now 1), write_roll-open c io s r0 st0 l refl),
        write-IsRolling c io s max r0 st0 l [] [] [] (first_file-IsRolling now name max l fresh)
            (omega (arith, short)),
        refl,
        refl,
        (λ q apart. (write_stream-Wrote c io s st0 l).others q (apart now 1)),
      )
