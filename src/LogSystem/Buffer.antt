-- ===== src/LogSystem/Buffer.antt =====
-- logSystem/logsCode/AsyncBuffer.hpp: the growing byte buffer between producers and consumer.
-- The proofs are in the children.
pub mod Contents
pub mod Growth
pub mod Views
use asyn_log_system.Prelude.{
  ℕ, ◌+◌, ◌-◌, ◌*◌, ◌%◌, ◌^◌, Bool, List, ◌++◌, length, take, drop, replicate, ltb, leb, ◌==◌,
  if◌then◌else◌, Result, ok, err, ◌>>=◌, size_mod, add_size, sub_size,
}
use asyn_log_system.LogSystem.Config.{Config}

-- `std::length_error` of `resize`; a copy past the end of the storage; a failed `assert`.
pub data Fault : Type 0 where
  length_error out_of_bounds assertion : Fault

-- `mylog::Buffer`.
pub record Buffer : Type 0 where
  pub storage : List ℕ  -- buffer_
  pub write_pos : ℕ
  pub read_pos : ℕ

-- `std::vector<char>::max_size()`.
abbrev pub max_size : ℕ
max_size = 2 ^ 63 - 1

-- `buffer_.resize(n)`: new bytes are 0.
unfoldable pub resize : List ℕ → ℕ → Result Fault (List ℕ)
resize xs n =
    if ltb max_size n then err length_error else ok (take n xs ++ replicate (n - length xs) 0)

-- `Buffer()`.
unfoldable pub init : Config → Buffer
init c = record { storage = replicate c.buffer_size 0; write_pos = 0; read_pos = 0 }

-- `WriteableSize()`.
abbrev pub writeable_size : Buffer → ℕ
writeable_size b = sub_size (length b.storage) b.write_pos

-- `ReadableSize()`.
abbrev pub readable_size : Buffer → ℕ
readable_size b = sub_size b.write_pos b.read_pos

-- `IsEmpty()`.
unfoldable pub is_empty : Buffer → Bool
is_empty b = b.write_pos == b.read_pos

-- The size that `ToBeEnough` asks for: doubled below the threshold, else one linear step more, and
-- never less than what is needed.
abbrev pub grown_size : Config → ℕ → ℕ → ℕ
grown_size c current len =
    let wanted =
      if ltb current c.threshold
      then (2 * current) % size_mod
      else add_size current c.linear_growth in
    if ltb wanted (add_size current len) then add_size current len else wanted

-- `ToBeEnough(len)`.
unfoldable pub to_be_enough : Config → ℕ → Buffer → Result Fault Buffer
to_be_enough c len b =
    if leb (writeable_size b) len
    then (do
      s ← resize b.storage (grown_size c (length b.storage) len)
      ok (record b { storage = s }))
    else ok b

-- `std::copy(data, data + len, &buffer_[i])`.
unfoldable pub overwrite : List ℕ → ℕ → List ℕ → Result Fault (List ℕ)
overwrite xs i ds =
    if leb (i + length ds) (length xs)
    then ok (take i xs ++ ds ++ drop (i + length ds) xs)
    else err out_of_bounds

-- `Push(data, len)`, with the `len` bytes as a list.
unfoldable pub push : Config → List ℕ → Buffer → Result Fault Buffer
push c ds b = do
  b' ← to_be_enough c (length ds) b
  s ← overwrite b'.storage b'.write_pos ds
  ok (record b' { storage = s; write_pos = add_size b'.write_pos (length ds) })

-- `Swap(buf)`.
unfoldable pub swap : Buffer → Buffer → Buffer × Buffer
swap a b = (
  record { storage = b.storage; read_pos = b.read_pos; write_pos = b.write_pos },
  record { storage = a.storage; read_pos = a.read_pos; write_pos = a.write_pos },
)

-- `MoveWritePos(len)` and `MoveReadPos(len)`, which assert that `len` fits.
unfoldable pub move_write_pos : ℕ → Buffer → Result Fault Buffer
move_write_pos len b =
    if leb len (writeable_size b)
    then ok (record b { write_pos = add_size b.write_pos len })
    else err assertion

unfoldable pub move_read_pos : ℕ → Buffer → Result Fault Buffer
move_read_pos len b =
    if leb len (readable_size b)
    then ok (record b { read_pos = add_size b.read_pos len })
    else err assertion

-- `Reset()`.
unfoldable pub reset : Buffer → Buffer
reset b = record b { write_pos = 0; read_pos = 0 }

-- What a reader of `[Begin(), Begin() + n)` sees.
abbrev pub read : Buffer → ℕ → List ℕ
read b n = take n (drop b.read_pos b.storage)

-- The bytes that are written and not yet read.
abbrev pub contents : Buffer → List ℕ
contents b = read b (b.write_pos - b.read_pos)

-- An `int` that is not negative stays, a negative one wraps around.
unfoldable pub int_to_size : ℕ → ℕ
int_to_size len = if ltb len (2 ^ 31) then len else len + (2 ^ 64 - 2 ^ 32)

-- `ReadBegin(len)`, which asserts that `len` bytes can be read. The argument is an `int`, given by
-- its 32 bits; the comparison makes it a `size_t`.
unfoldable pub read_begin : ℕ → Buffer → Result Fault (List ℕ)
read_begin len b =
    let n = int_to_size len in if leb n (readable_size b) then ok (read b n) else err assertion
