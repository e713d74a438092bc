-- ===== src/LogSystem/Buffer/Growth.antt =====
-- logSystem/logsCode/AsyncBuffer.hpp: when the storage grows.
use asyn_log_system.Prelude.{
  ℕ, ◌+◌, ◌-◌, ◌≤◌, ◌<◌, ◌≡◌, inl, inr, List, ◌++◌, arith, length, take, drop, replicate, leb,
  if◌then◌else◌, ok, length-append, length-take, length-drop, length-replicate, Bool-cases, ◌↔◌,
  >>=-eq-ok,
}
use asyn_log_system.LogSystem.Config.{Config}
use asyn_log_system.LogSystem.Buffer.{
  Buffer, max_size, resize, to_be_enough, overwrite, push, writeable_size, grown_size,
}
use asyn_log_system.LogSystem.Buffer.Contents.{IsValid}

length-resize : (xs ys : List ℕ) (n : ℕ) → resize xs n ≡ ok ys → length ys ≡ n
unfolding resize
length-resize xs ys n h = ground (
  arith,
  length-append (take n xs) (replicate (n - length xs) 0),
  length-take n xs,
  length-replicate {A = ℕ} (n - length xs) 0,
)

length-overwrite : (xs ys ds : List ℕ) (i : ℕ) → overwrite xs i ds ≡ ok ys → length ys ≡ length xs
unfolding overwrite
length-overwrite xs ys ds i h = ground (
  arith,
  length-append (take i xs ++ ds) (drop (i + length ds) xs),
  length-append (take i xs) ds,
  length-take i xs,
  length-drop (i + length ds) xs,
)

length-to_be_enough :
    (c : Config) (len : ℕ) (b b' : Buffer)
    → to_be_enough c len b ≡ ok b'
    → length b'.storage ≡ (
        if leb (writeable_size b) len
        then grown_size c (length b.storage) len
        else length b.storage)
unfolding to_be_enough
length-to_be_enough c len b b' h = elim (Bool-cases (leb (writeable_size b) len)) [
  | inr plenty ↦ rw plenty (cc (rw plenty at h))
  | inl short ↦
      let (s, e, last) =
        >>=-eq-ok (resize b.storage (grown_size c (length b.storage) len)) _ (rw short at h) in
      rw short (cc (last, length-resize b.storage s _ e))
]

-- The size of the storage after a push that succeeds.
pub length-push-if :
    (c : Config) (ds : List ℕ) (b b' : Buffer)
    → push c ds b ≡ ok b'
    → length b'.storage ≡ (
        if leb (writeable_size b) (length ds)
        then grown_size c (length b.storage) (length ds)
        else length b.storage)
unfolding push
length-push-if c ds b b' h =
    let (grown, e, rest) = >>=-eq-ok (to_be_enough c (length ds) b) _ h in
    let (s, w, last) = >>=-eq-ok (overwrite grown.storage grown.write_pos ds) _ rest in
    cc (
      last,
      length-overwrite grown.storage s ds grown.write_pos w,
      length-to_be_enough c (length ds) b grown e,
    )

-- With a positive linear_growth of at most 2^63 - 1 and a valid buffer that has some storage, a
-- push of at most 2^63 - 1 bytes that succeeds keeps the size of the storage exactly if it leaves
-- at least one byte writeable.
pub length-push :
    (c : Config) (ds : List ℕ) (b b' : Buffer)
    → 0 < c.linear_growth
    → c.linear_growth ≤ max_size
    → 0 < length b.storage
    → length ds ≤ max_size
    → IsValid b
    → push c ds b ≡ ok b'
    → (length b'.storage ≡ length b.storage) ↔ (length ds < length b.storage - b.write_pos)
length-push c ds b b' g n k h v e =
    let size = length-push-if c ds b b' e in (ground arith, ground arith)
