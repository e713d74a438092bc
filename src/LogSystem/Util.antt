-- ===== src/LogSystem/Util.antt =====
-- logSystem/logsCode/Util.hpp: `File` over the calls of the operating system, and `JsonUtil`.
pub mod Directories
use asyn_log_system.Prelude.{
  arith, ℕ, ◌-◌, ◌≡◌, Bool, true, false, not, ◌&&◌, ◌||◌, List, [], ◌∷◌, ◌++◌, length, take,
  replicate, Option, none, some, ◌==◌, if◌then◌else◌,
}
use asyn_log_system.Prelude.Text.{Text, codes, text_eq, upto_last}
use asyn_log_system.Json.{Json}

-- The operating system: whether `stat` succeeds, the size that it gives, whether a file opens, the
-- bytes that reading it gives, and `mkdir` with its success.
pub record FileSystem : Type 1 where
  pub State : Type 0
  pub stat : Text → State → Bool
  pub size : Text → State → ℕ
  pub opens : Text → State → Bool
  pub bytes : Text → State → Text
  pub mkdir : Text → State → Bool × State

-- Documented behaviour: a directory that was made is there, nothing goes away, and the current
-- directory and its parent are there.
pub record FileSystemLaws (fs : FileSystem) : Type 0 where
  pub stat-mkdir :
      (p : Text) (s : fs.State) → (fs.mkdir p s).0 ≡ true → fs.stat p (fs.mkdir p s).1 ≡ true
  pub stat-mkdir_other :
      (p q : Text) (s : fs.State) → fs.stat q s ≡ true → fs.stat q (fs.mkdir p s).1 ≡ true
  pub stat-here : (s : fs.State) → fs.stat (codes ".") s ≡ true
  pub stat-parent : (s : fs.State) → fs.stat (codes "..") s ≡ true

-- The characters that `find_first_of("/\\")` looks for.
abbrev pub is_separator : ℕ → Bool
is_separator c = c == b'/' || c == 0x5c

-- `Path(filename)`.
unfoldable pub path_of : Text → Text
path_of filename = upto_last is_separator filename

module _ (fs : FileSystem) where
  open fs use {State, stat, size, opens, bytes, mkdir}

  -- One directory on the way, with whether the loop goes on.
  unfoldable pub make_part : Text → State → Bool × State
  make_part sub_path s =
      if text_eq sub_path (codes ".") || text_eq sub_path (codes "..") || stat sub_path s
      then (true, s)
      else mkdir sub_path s

  -- The loop of `CreateDirectory` passes one character: what stands before it, and whether a name
  -- has begun since `index`.
  unfoldable pub make_at : Text → Bool → ℕ → State → Bool × State
  make_at before begun c s = if is_separator c && begun then make_part before s else (true, s)

  -- The loop with what stands before and what follows. The first result is false if an error was
  -- printed.
  unfoldable pub make_from : Text → Bool → Text → State → Bool × State
  make_from before begun [] s = if begun then mkdir before s else (true, s)
  make_from before begun (c ∷ rest) s =
      let (made, s') = make_at before begun c s in
      let (done, s'') = make_from (before ++ c ∷ []) (not (is_separator c)) rest s' in
      if made then (done, s'') else (false, s')

  -- `CreateDirectory(pathname)`.
  unfoldable pub create_directory : Text → State → Bool × State
  create_directory pathname s =
      let (done, s') = make_from [] false pathname s in
      if stat pathname s
      then (not (text_eq pathname []), s)
      else (done && not (text_eq pathname []), s')

  -- `FileSize(filename)`; `none` is -1.
  unfoldable pub file_size : Text → State → Option ℕ
  file_size filename s = if stat filename s then some (size filename s) else none

  -- `GetContent(content, filename)` behind the open: what is read of `len` bytes, and zeros for
  -- what is missing.
  unfoldable pub read_sized : Option ℕ → Text → Text → Bool × Text
  read_sized none found content = (false, content)
  read_sized (some len) found content =
      let got = take len found in (length got == len, got ++ replicate (len - length got) 0)

  -- `GetContent(content, filename)` with its result and the content after it.
  unfoldable pub get_content : Text → Text → State → Bool × Text
  unfolding read_sized
  get_content content filename s =
      if opens filename s
      then read_sized (file_size filename s) (bytes filename s) content
      else (false, content)

module _ (j : Json) where
  open j use {Value, write, parse}

  -- `JsonUtil::Serialize(val, str)` into `str`, with its result.
  unfoldable pub serialize : Value → Text → Bool × Text
  serialize val str = elim (write val) [ none ↦ (false, str) | some s ↦ (true, s) ]

  -- `JsonUtil::UnSerialize(str, val)` into `val`, with its result.
  unfoldable pub unserialize : Text → Value → Bool × Value
  unserialize str val = elim (parse str) [ none ↦ (false, val) | some v ↦ (true, v) ]

  pub unserialize_parsed :
      (v w : Value) (str : Text) → parse str ≡ some w → unserialize str v ≡ (true, w)
  unfolding unserialize
  unserialize_parsed v w str e = ground arith
