-- ===== src/LogSystem/Flush.antt =====
-- logSystem/logsCode/LogFlush.hpp: where log data goes. Files are written through streams of the C
-- library, which keep bytes back until they are flushed. Writes do not fail; an open may. Messages
-- on the standard error stream and the making of directories are not part of the model.
pub mod Names
pub mod Streams
pub mod Rolling
pub mod Chunks
pub mod Opening
pub mod Files
pub mod Create
mod Tests
use asyn_log_system.Prelude.{
  ℕ, ◌+◌, ◌≡◌, ◌≤◌, Bool, true, false, List, [], ◌∷◌, ◌++◌, length, take, drop, Option, none, some,
  leb, ◌==◌, if◌then◌else◌, Result, ok, err, ◌>>=◌, add_size,
}
use asyn_log_system.Prelude.Text.{Text, codes, text_eq}
use asyn_log_system.LogSystem.Config.{Config}
use Names.{Tm, create_filename}

-- What files hold, and what of it is known to be on the disk.
pub record Logs : Type 0 where
  pub content : Text → Text
  pub synced : Text → Text

-- A `FILE*` in append mode, with the bytes that it keeps back.
pub record Stream : Type 0 where
  pub name : Text
  pub pending : Text

-- Which opens succeed, and how many of the bytes that a stream has `fwrite` passes on at once.
pub record Stdio : Type 0 where
  pub can_open : Text → Bool
  pub passes : ℕ → ℕ

-- Why a flush does not come to its end.
pub data Fault : Type 0 where
  null_stream : Fault  -- a call on a null `FILE*`

abbrev pub append_to : Text → Text → Logs → Logs
append_to name s l = record l {
  content = λ q. if text_eq name q then l.content q ++ s else l.content q;
}

unfoldable pub fwrite : Stdio → Text → Stream → Logs → Stream × Logs
fwrite io s st l =
    let all = st.pending ++ s in
    let n = io.passes (length all) in
    (record st { pending = drop n all }, append_to st.name (take n all) l)

unfoldable pub fflush : Stream → Logs → Stream × Logs
fflush st l = (record st { pending = [] }, append_to st.name st.pending l)

unfoldable pub fsync : Stream → Logs → Logs
fsync st l = record l { synced = λ q. if text_eq st.name q then l.content q else l.synced q }

unfoldable pub fopen : Stdio → Text → Option Stream
fopen io name = if io.can_open name then some (record { name = name; pending = [] }) else none

fclose : Option Stream → Logs → Logs
fclose none l = l
fclose (some st) l = append_to st.name st.pending l

-- What both kinds of files do behind `fwrite`, by `flush_log`.
unfoldable pub flush_by_level : Config → Stream → Logs → Stream × Logs
flush_by_level c st l =
    if c.flush_log == 1
    then fflush st l
    else if c.flush_log == 2
    then (let (st', l') = fflush st l in (st', fsync st' l'))
    else (st, l)

-- `fwrite` and what follows it.
unfoldable pub write_stream : Config → Stdio → Text → Stream → Logs → Stream × Logs
write_stream c io s st l = let (st', l') = fwrite io s st l in flush_by_level c st' l'

or_null : Option Stream → Result Fault Stream
or_null none = err null_stream
or_null (some st) = ok st

-- `FileFlush`.
pub record FileFlush : Type 0 where
  pub filename : Text
  pub stream : Option Stream

-- `FileFlush(filename)`.
unfoldable pub open_file : Stdio → Text → FileFlush
open_file io name = record { filename = name; stream = fopen io name }

module _ (c : Config) (io : Stdio) where
  -- `FileFlush::Flush(data, len)`.
  unfoldable pub flush_file : Text → FileFlush → Logs → Result Fault (FileFlush × Logs)
  unfolding or_null
  flush_file s f l = do
    st ← or_null f.stream
    let (st', l') = write_stream c io s st l
    ok (record f { stream = some st' }, l')

-- `RollFileFlush`; the numbers are `size_t`.
pub record RollFileFlush : Type 0 where
  pub cnt : ℕ
  pub cur_size : ℕ
  pub max_size : ℕ
  pub basename : Text
  pub stream : Option Stream

-- `RollFileFlush(filename, max_size)`.
unfoldable pub roll_over : Text → ℕ → RollFileFlush
roll_over name max = record {
  cnt = 1;
  cur_size = 0;
  max_size = max;
  basename = name;
  stream = none;
}

-- The test of `InitLogFile()`.
unfoldable pub needs_file : RollFileFlush → Bool
needs_file r = elim r.stream [ none ↦ true | some st ↦ leb r.max_size r.cur_size ]

module _ (c : Config) (io : Stdio) where
  -- `InitLogFile()` at the local time `now`.
  unfoldable pub init_log_file : Tm → RollFileFlush → Logs → RollFileFlush × Logs
  unfolding fclose
  init_log_file now r l =
      if needs_file r
      then (
        record r {
          stream = fopen io (create_filename r.basename now r.cnt);
          cnt = add_size r.cnt 1;
          cur_size = 0;
        },
        fclose r.stream l,
      )
      else (r, l)

  -- `RollFileFlush::Flush(data, len)` behind `InitLogFile()`.
  unfoldable pub write_roll : Text → RollFileFlush → Logs → Result Fault (RollFileFlush × Logs)
  unfolding or_null
  write_roll s r l = do
    st ← or_null r.stream
    let (st', l') = write_stream c io s st l
    ok (record r { stream = some st'; cur_size = add_size r.cur_size (length s) }, l')

  -- `RollFileFlush::Flush(data, len)`.
  unfoldable pub flush_roll : Tm → Text → RollFileFlush → Logs → Result Fault (RollFileFlush × Logs)
  flush_roll now s r l = let (r', l') = init_log_file now r l in write_roll s r' l'

  -- Flushes one after the other.
  unfoldable pub flush_rolls :
      List (Tm × Text) → RollFileFlush → Logs → Result Fault (RollFileFlush × Logs)
  flush_rolls [] r l = ok (r, l)
  flush_rolls ((now, s) ∷ rest) r l = do (r', l') ← flush_roll now s r l; flush_rolls rest r' l'
