-- ===== src/Server/Disk.antt =====
-- src/server/Util.hpp, `FileUtil`: files by their paths, with the calls of the standard library
-- and of `stat` that the methods make. A path is a text without a 0 byte, as which the C library
-- reads it, and a file has one text, so that there are no links and no detours by `.` or `..`; the
-- theorems on stored files ask for names and directories of which this is true (`IsFileName` and
-- `ArePlaces` in Server/Store). Reading leaves the access time as it is.
pub mod Laws
use asyn_log_system.Prelude.{
  ℕ, zero, suc, ◌+◌, ◌-◌, ◌^◌, ◌≤◌, ◌<◌, ◌≡◌, Bool, true, false, not, ◌&&◌, ◌||◌, List, [], length,
  take, drop, Option, none, some, ltb, leb, ◌==◌, if◌then◌else◌, size_mod, add_size,
}
use mathlib.Core.List.{Permᴰ}
use asyn_log_system.Prelude.Text.{Text, text_eq, after_last}
use asyn_log_system.Prelude.Table.{Table}

pub record File : Type 0 where
  pub content : Text
  pub mtime : ℕ
  pub atime : ℕ

pub data Node : Type 0 where
  directory : Node
  file : File → Node

-- What is on the disk, and the time of the next write.
pub record Disk : Type 0 where
  pub nodes : Text → Option Node
  pub now : ℕ

-- What the program finds on its machine: which opens succeed, how many bytes of one write find room,
-- the size that `stat` gives for a directory, and the order in which a `for` goes through a
-- `std::unordered_map`, which is any order of its entries.
pub record Host : Type 1 where
  pub can_write : Text → Bool
  pub can_read : Text → Bool
  pub room : Text → ℕ
  pub directory_size : ℕ
  pub order : {V : Type 0} → Table V → Table V
  pub order-Permᴰ : {V : Type 0} (t : Table V) → Permᴰ (order t) t

-- A change of one node.
abbrev pub update : Text → Option Node → (Text → Option Node) → Text → Option Node
update p n nodes q = if text_eq p q then n else nodes q

-- `Exists()`.
unfoldable pub exists : Text → Disk → Bool
exists p d = elim (d.nodes p) [ none ↦ false | some n ↦ true ]

-- `FileSize()` as a `size_t`: the -1 of a failed `stat` becomes 2 ^ 64 - 1.
unfoldable pub file_size : Host → Text → Disk → ℕ
file_size h p d = elim (d.nodes p) [
  | none ↦ size_mod - 1
  | some directory ↦ h.directory_size
  | some (file f) ↦ length f.content
]

-- `LastModifyTime()` and `LastAccessTime()`, with -1 as 2 ^ 64 - 1.
unfoldable pub last_modify_time : Text → Disk → ℕ
last_modify_time p d = elim (d.nodes p) [
  | none ↦ size_mod - 1
  | some directory ↦ d.now
  | some (file f) ↦ f.mtime
]

unfoldable pub last_access_time : Text → Disk → ℕ
last_access_time p d = elim (d.nodes p) [
  | none ↦ size_mod - 1
  | some directory ↦ d.now
  | some (file f) ↦ f.atime
]

-- What `ifs.read` finds of the `len` bytes from `pos` on; a directory gives none.
read_at : ℕ → ℕ → Option Node → Option Text
read_at pos len none = none
read_at pos len (some directory) = none
read_at pos len (some (file f)) =
    let s = take len (drop pos f.content) in if length s == len then some s else none

-- `GetPosLen(content, pos, len)`: the content, or the result `false`.
unfoldable pub get_pos_len : Host → Text → ℕ → ℕ → Disk → Option Text
unfolding read_at
get_pos_len h p pos len d =
    if ltb (file_size h p d) (add_size pos len)
    then none
    else if h.can_read p
    then read_at pos len (d.nodes p)
    else none

-- `GetContent(content)`.
unfoldable pub get_content : Host → Text → Disk → Option Text
get_content h p d = get_pos_len h p 0 (file_size h p d) d

-- The access time of what is overwritten stays.
unfoldable pub access_time : Option Node → ℕ → ℕ
access_time none now = now
access_time (some directory) now = now
access_time (some (file f)) now = f.atime

pub is_directory : Option Node → Bool
is_directory none = false
is_directory (some directory) = true
is_directory (some (file f)) = false

-- `SetContent(content, len)`: the open truncates; a write that finds too little room is logged,
-- and the result is still `true`.
unfoldable pub set_content : Host → Text → Text → Disk → Bool × Disk
unfolding access_time is_directory
set_content h p s d =
    if h.can_write p && not (is_directory (d.nodes p))
    then (
      true,
      record d {
        nodes =
            update p
              (some (
                file (record {
                  content = take (h.room p) s;
                  mtime = d.now;
                  atime = access_time (d.nodes p) d.now;
                })))
              d.nodes;
      },
    )
    else (false, d)

-- `CreateDirectory()`; its result is not used by the callers.
unfoldable pub create_directory : Text → Disk → Disk
create_directory p d =
    if exists p d then d else record d { nodes = update p (some directory) d.nodes }

-- `remove(path)`.
unfoldable pub remove : Text → Disk → Disk
remove p d = record d { nodes = update p none d.nodes }

-- The compression library.
pub record Bundle : Type 0 where
  pub pack : ℕ → Text → Text
  pub unpack : Text → Text

-- `Compress(content, format)`.
unfoldable pub compress : Host → Bundle → Text → Text → ℕ → Disk → Bool × Disk
compress h b p s format d =
    let packed = b.pack format s in
    if length packed == 0 then (false, d) else set_content h p packed d

-- `UnCompress(download_path)` on the file `p`.
unfoldable pub uncompress : Host → Bundle → Text → Text → Disk → Bool × Disk
uncompress h b p target d = elim (get_content h p d) [
  | none ↦ (false, d)
  | some body ↦ set_content h target (b.unpack body) d
]

-- The characters that `find_last_of("/\\\\")` looks for.
abbrev pub is_separator : ℕ → Bool
is_separator c = c == b'/' || c == 0x5c

-- `FileName()`.
unfoldable pub file_name : Text → Text
file_name p = after_last is_separator p
