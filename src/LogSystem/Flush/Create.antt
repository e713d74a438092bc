-- ===== src/LogSystem/Flush/Create.antt =====
-- logSystem/logsCode/LogFlush.hpp: the constructors of the flushers, which make the directory of
-- their file first.
use asyn_log_system.Prelude.{
  ok, some, refl, arith, subst, append_assoc, ◌∙◌, inr, sym, ap, inl, Bool-cases, [], ◌∷◌, ◌++◌,
  false, true, ◌≡◌, ℕ,
}
use asyn_log_system.Prelude.Text.{
  upto_last-after_last, after_last-append, codes, has-append, has, Text,
}
use mathlib.Core.List.{append_cancel_right}
use asyn_log_system.LogSystem.Config.{Config}
use asyn_log_system.LogSystem.Util.{
  FileSystem, FileSystemLaws, create_directory, path_of, is_separator,
}
use asyn_log_system.LogSystem.Util.Directories.{create_directory_lem, ends_in_name, ends_name}
use asyn_log_system.LogSystem.Flush.{
  Stdio, Logs, Stream, FileFlush, RollFileFlush, open_file, roll_over, flush_file, fopen,
  write_stream,
}

module _ (fs : FileSystem) (stdio : fs.State → Stdio) where
  -- `FileFlush(filename)` with the directory that it makes; which opens succeed may depend on the
  -- file system.
  unfoldable pub new_file_flush : Text → fs.State → FileFlush × fs.State
  new_file_flush filename s =
      let (made, s') = create_directory fs (path_of filename) s in
      (open_file (stdio s') filename, s')

  -- `RollFileFlush(filename, max_size)` with the directory that it makes.
  unfoldable pub new_roll_file_flush : Text → ℕ → fs.State → RollFileFlush × fs.State
  new_roll_file_flush filename max_size s =
      let (made, s') = create_directory fs (path_of filename) s in (roll_over filename max_size, s')

create_directory_known :
    (fs : FileSystem) (p : Text) (s : fs.State)
    → fs.stat p s ≡ true
    → (create_directory fs p s).1 ≡ s
unfolding create_directory
create_directory_known fs p s there = rw there refl

fopen-some :
    (io : Stdio) (name : Text)
    → io.can_open name ≡ true
    → fopen io name ≡ some (record { name = name; pending = [] })
unfolding fopen
fopen-some io name e = rw e refl

flush_open :
    (c : Config) (io : Stdio) (data_ : Text) (f : FileFlush) (st : Stream) (l : Logs)
    → f.stream ≡ some st
    → flush_file c io data_ f l
      ≡ ok (
        record f { stream = some (write_stream c io data_ st l).0 },
        (write_stream c io data_ st l).1,
      )
unfolding flush_file
flush_open c io data_ f st l e = rw e refl

path_of_lem :
    (dir name : Text) (sep : ℕ)
    → is_separator sep ≡ true
    → has is_separator name ≡ false
    → path_of (dir ++ sep ∷ name) ≡ dir ++ sep ∷ []
unfolding path_of has
path_of_lem dir name sep at plain =
    let s : Text = dir ++ sep ∷ name in
    let some_sep : has is_separator s ≡ true =
      rw (has-append is_separator dir (sep ∷ name), at) (ground arith) in
    append_cancel_right (path_of s) (dir ++ sep ∷ []) name (
      ap (◌++◌ (path_of s)) (sym (after_last-append is_separator dir name sep at plain))
      ∙ upto_last-after_last is_separator s some_sep
      ∙ sym (append_assoc dir (sep ∷ []) name))

module _ (fs : FileSystem) (laws : FileSystemLaws fs) (stdio : fs.State → Stdio) where
  -- The directory is there behind `CreateDirectory`.
  dir_there :
      (dir : Text) (sep : ℕ) (s : fs.State)
      → is_separator sep ≡ true
      → ends_in_name false dir ≡ true
      → (fs.stat (dir ++ sep ∷ []) s ≡ true → fs.stat dir s ≡ true)
      → (create_directory fs (dir ++ sep ∷ []) s).0 ≡ true
      → fs.stat dir (create_directory fs (dir ++ sep ∷ []) s).1 ≡ true
  unfolding ends_name
  dir_there dir sep s at named trailing made = elim (Bool-cases (fs.stat (dir ++ sep ∷ []) s)) [
    | inl there ↦
        subst (λ x. fs.stat dir x ≡ true)
          (sym (create_directory_known fs (dir ++ sep ∷ []) s there)) (trailing there)
    | inr new ↦
        (create_directory_lem fs laws dir (sep ∷ []) (codes ".") s new named at (laws.stat-here s)
          made).0
  ]

  -- If no error is printed while the directory of a log file is made, a path that ends in a
  -- separator is there only if its directory is, and a file in a directory that is there can be
  -- opened, then a new FileFlush has an open stream, and its first flush comes to its end and
  -- writes to that stream.
  pub new_file_flush-flush_file :
      (c : Config) (io : Stdio) (dir name data_ : Text) (sep : ℕ) (s : fs.State) (l : Logs)
      → is_separator sep ≡ true
      → has is_separator name ≡ false
      → ends_in_name false dir ≡ true
      → (fs.stat (dir ++ sep ∷ []) s ≡ true → fs.stat dir s ≡ true)
      → ((s' : fs.State) → fs.stat dir s' ≡ true → (stdio s').can_open (dir ++ sep ∷ name) ≡ true)
      → (create_directory fs (dir ++ sep ∷ []) s).0 ≡ true
      → let filename = dir ++ sep ∷ name in
        let (f, s') = new_file_flush fs stdio filename s in
        let st : Stream = record { name = filename; pending = [] } in
        (f.stream ≡ some st)
        × (flush_file c io data_ f l
            ≡ ok (
              record f { stream = some (write_stream c io data_ st l).0 },
              (write_stream c io data_ st l).1,
            ))
  unfolding new_file_flush open_file
  new_file_flush-flush_file c io dir name data_ sep s l at plain named trailing opens made =
      let filename : Text = dir ++ sep ∷ name in
      let there = dir_there dir sep s at named trailing made in
      let open_ : fopen (stdio (create_directory fs (path_of filename) s).1) filename
          ≡ some (record { name = filename; pending = [] }) =
        fopen-some _ filename (
          subst (λ p. (stdio (create_directory fs p s).1).can_open filename ≡ true)
            (sym (path_of_lem dir name sep at plain)) (opens _ there)) in
      (open_, flush_open c io data_ _ (record { name = filename; pending = [] }) l open_)
