-- ===== src/LogSystem/Flush/Streams.antt =====
-- logSystem/logsCode/LogFlush.hpp: what writing to a stream does to the files.
use asyn_log_system.Prelude.{
  ℕ, ◌≡◌, ◌≢◌, refl, sym, ap, ◌∙◌, ◌⊎◌, inl, inr, false, [], ◌++◌, ◌==◌, length, take, drop, arith,
  append_assoc, append-nil, Bool-cases, if◌then◌else◌, take-append-drop,
}
use asyn_log_system.Prelude.Text.{Text, text_eq_refl, text_eq-false}
use asyn_log_system.LogSystem.Config.{Config}
use asyn_log_system.LogSystem.Flush.{
  Logs, Stream, Stdio, append_to, fwrite, fflush, fsync, flush_by_level, write_stream,
}

-- All that was written through a stream and the streams before it on the same file.
abbrev pub total : Stream → Logs → Text
total st l = l.content st.name ++ st.pending

-- A write of `s` through a stream, as it is seen in the files.
pub record Wrote (s : Text) (st st' : Stream) (l l' : Logs) : Type 0 where
  pub name : st'.name ≡ st.name
  pub added : total st' l' ≡ total st l ++ s
  pub others : (q : Text) → q ≢ st.name → l'.content q ≡ l.content q

pub append_to_self :
    (name s : Text) (l : Logs) → (append_to name s l).content name ≡ l.content name ++ s
append_to_self name s l = rw (text_eq_refl name)

pub append_to_ne :
    (name s q : Text) (l : Logs) → q ≢ name → (append_to name s l).content q ≡ l.content q
append_to_ne name s q l ne = rw (text_eq-false name q (λ e. ne (sym e)))

fwrite-Wrote :
    (io : Stdio) (s : Text) (st : Stream) (l : Logs)
    → Wrote s st (fwrite io s st l).0 l (fwrite io s st l).1
unfolding fwrite
fwrite-Wrote io s st l =
    let all : Text = st.pending ++ s in
    let n : ℕ = io.passes (length all) in
    record {
      name = refl;
      added =
          ap (λ t. t ++ drop n all) (append_to_self st.name (take n all) l)
          ∙ append_assoc (l.content st.name) (take n all) (drop n all)
          ∙ ap (λ t. l.content st.name ++ t) (take-append-drop n all)
          ∙ sym (append_assoc (l.content st.name) st.pending s);
      others = λ q ne. append_to_ne st.name (take n all) q l ne;
    }

fflush-Wrote : (st : Stream) (l : Logs) → Wrote [] st (fflush st l).0 l (fflush st l).1
unfolding fflush
fflush-Wrote st l = record {
  name = refl;
  added = append-nil _ ∙ append_to_self st.name st.pending l ∙ sym (append-nil _);
  others = λ q ne. append_to_ne st.name st.pending q l ne;
}

-- The level changes where the bytes are, never which bytes there are.
flush_by_level-Wrote :
    (c : Config) (st : Stream) (l : Logs)
    → Wrote [] st (flush_by_level c st l).0 l (flush_by_level c st l).1
unfolding flush_by_level fsync
flush_by_level-Wrote c st l = elim (Bool-cases (c.flush_log == 1)) [
  | inl one ↦ rw one (fflush-Wrote st l)
  | inr other ↦ elim (Bool-cases (c.flush_log == 2)) [
    | inl two ↦
        let w = fflush-Wrote st l in
        rw (other, two) (record { name = w.name; added = w.added; others = w.others })
    | inr neither ↦
        rw (other, neither)
          (record { name = refl; added = sym (append-nil _); others = λ q ne. refl })
  ]
]

pub write_stream-Wrote :
    (c : Config) (io : Stdio) (s : Text) (st : Stream) (l : Logs)
    → Wrote s st (write_stream c io s st l).0 l (write_stream c io s st l).1
unfolding write_stream
write_stream-Wrote c io s st l =
    let (st', l') = fwrite io s st l in
    let w = fwrite-Wrote io s st l in
    let v = flush_by_level-Wrote c (fwrite io s st l).0 (fwrite io s st l).1 in
    record {
      name = v.name ∙ w.name;
      added = v.added ∙ append-nil _ ∙ w.added;
      others = λ q ne. v.others q (λ e. ne (e ∙ w.name)) ∙ w.others q ne;
    }

flush_by_level-pending :
    (c : Config) (st : Stream) (l : Logs)
    → (c.flush_log ≡ 1) ⊎ (c.flush_log ≡ 2)
    → (flush_by_level c st l).0.pending ≡ []
unfolding flush_by_level fflush
flush_by_level-pending c st l (inl one) = rw one refl
flush_by_level-pending c st l (inr two) = rw two refl

flush_by_level-synced :
    (c : Config) (st : Stream) (l : Logs)
    → (flush_by_level c st l).1.synced st.name
      ≡ (if c.flush_log == 2 then (flush_by_level c st l).1.content st.name else l.synced st.name)
unfolding flush_by_level fflush fsync
flush_by_level-synced c st l = elim (Bool-cases (c.flush_log == 1)) [
  | inl one ↦ let two : (c.flush_log == 2) ≡ false = ground arith in rw (one, two) refl
  | inr other ↦ elim (Bool-cases (c.flush_log == 2)) [
    | inl two ↦ rw (other, two, text_eq_refl st.name) refl
    | inr neither ↦ rw (other, neither) refl
  ]
]

-- With flush_log 1 or 2 a write leaves in the file all that was written before, followed by the
-- new bytes, and nothing in the stream; with 2 all of it is on the disk, with 1 the disk may be
-- behind as before.
pub write_stream-flushed :
    (c : Config) (io : Stdio) (s : Text) (st : Stream) (l : Logs)
    → (c.flush_log ≡ 1) ⊎ (c.flush_log ≡ 2)
    → let (st', l') = write_stream c io s st l in
      (l'.content st.name ≡ total st l ++ s)
      × (st'.pending ≡ [])
      × (l'.synced st.name ≡ (if c.flush_log == 2 then total st l ++ s else l.synced st.name))
write_stream-flushed c io s st l level =
    let w = write_stream-Wrote c io s st l in
    let st1 : Stream = (fwrite io s st l).0 in
    let l1 : Logs = (fwrite io s st l).1 in
    let empty : (write_stream c io s st l).0.pending ≡ [] =
      unfold write_stream in flush_by_level-pending c st1 l1 level in
    let held : (write_stream c io s st l).1.content st.name ≡ total st l ++ s =
      sym (append-nil _)
      ∙ ap (λ t. (write_stream c io s st l).1.content st.name ++ t) (sym empty)
      ∙ ap (λ n. (write_stream c io s st l).1.content n ++ (write_stream c io s st l).0.pending)
          (sym w.name)
      ∙ w.added in
    let synced : (write_stream c io s st l).1.synced st.name ≡ (
        if c.flush_log == 2
        then (write_stream c io s st l).1.content st.name
        else l.synced st.name) =
      unfold write_stream fwrite in
      flush_by_level-synced c (fwrite io s st l).0 (fwrite io s st l).1 in
    (held, empty, synced ∙ ap (λ t. if c.flush_log == 2 then t else l.synced st.name) held)
