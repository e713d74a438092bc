-- ===== src/LogSystem/Buffer/Contents.antt =====
-- logSystem/logsCode/AsyncBuffer.hpp: what `Push` does to the bytes held and to the storage.
use asyn_log_system.Prelude.{
  ℕ, ◌+◌, ◌-◌, ◌≤◌, ◌≡◌, refl, ap, ◌⊎◌, inl, inr, true, List, ◌++◌, arith, length, take, drop,
  replicate, ltb, leb, ok, err, ◌>>=◌, length-append, length-take, length-drop, length-replicate,
  take-append, take_of_le, take-append_of_le, drop-append_of_le, drop-take, add_size, Bool-cases,
  ◌≢◌, not-leb→lt, not-ltb→le,
}
use asyn_log_system.LogSystem.Config.{Config}
use asyn_log_system.LogSystem.Buffer.{
  length_error, Buffer, max_size, resize, to_be_enough, overwrite, push, contents, writeable_size,
  grown_size,
}

-- Positions in order and inside the storage, which is no longer than a vector can be.
pub record IsValid (b : Buffer) : Type 0 where
  pub ordered : b.read_pos ≤ b.write_pos
  pub inside : b.write_pos ≤ length b.storage
  pub small : length b.storage ≤ max_size

-- What is read from the front of a list does not change when the list grows at its end.
read_grown :
    (xs ys : List ℕ) (r n : ℕ) → r + n ≤ length xs → take n (drop r (xs ++ ys)) ≡ take n (drop r xs)
read_grown xs ys r n h =
    rw (drop-append_of_le r xs ys (omega arith))
      (take-append_of_le n (drop r xs) ys (omega (arith, length-drop r xs)))

-- Bytes from `r` to `w`, followed by what was written at `w`.
read_overwritten :
    (xs ds zs : List ℕ) (r w : ℕ)
    → r ≤ w
    → w ≤ length xs
    → take (w + length ds - r) (drop r (take w xs ++ ds ++ zs)) ≡ take (w - r) (drop r xs) ++ ds
read_overwritten xs ds zs r w r_le w_le =
    rw (cut, drop-take r w xs, count) (take-append (take (w - r) (drop r xs) ++ ds) zs)
  where
    cut : drop r (take w xs ++ ds ++ zs) ≡ drop r (take w xs) ++ ds ++ zs
    cut =
        rw
          (drop-append_of_le r (take w xs ++ ds) zs
            (omega (arith, length-append (take w xs) ds, length-take w xs)))
          (rw (drop-append_of_le r (take w xs) ds (omega (arith, length-take w xs))))

    count : w + length ds - r ≡ length (take (w - r) (drop r xs) ++ ds)
    count = omega (
      arith,
      length-append (take (w - r) (drop r xs)) ds,
      length-take (w - r) (drop r xs),
      length-drop r xs,
    )

resize_lem :
    (xs : List ℕ) (n : ℕ)
    → length xs ≤ n
    → n ≤ max_size
    → resize xs n ≡ ok (xs ++ replicate (n - length xs) 0)
unfolding resize
resize_lem xs n h k = rw (take_of_le n xs h) (ground arith)

-- A write inside the storage keeps its length.
overwrite_lem :
    (xs ds : List ℕ) (i : ℕ)
    → i + length ds ≤ length xs
    → (overwrite xs i ds ≡ ok (take i xs ++ ds ++ drop (i + length ds) xs))
      × (length (take i xs ++ ds ++ drop (i + length ds) xs) ≡ length xs)
unfolding overwrite
overwrite_lem xs ds i h = (
  ground arith,
  omega (
    arith,
    length-append (take i xs ++ ds) (drop (i + length ds) xs),
    length-append (take i xs) ds,
    length-take i xs,
    length-drop (i + length ds) xs,
  ),
)

-- `b'` is `b` with room for `len` more bytes, the bytes held unchanged.
record Roomier (len : ℕ) (b b' : Buffer) : Type 0 where
  valid : IsValid b'
  same_write : b'.write_pos ≡ b.write_pos
  same_read : b'.read_pos ≡ b.read_pos
  same_contents : contents b' ≡ contents b
  room : b.write_pos + len ≤ length b'.storage
  no_smaller : length b.storage ≤ length b'.storage

-- The size asked for is enough, where the sum of sizes does not wrap.
grown_size-ge :
    (c : Config) (n len : ℕ) → n ≤ max_size → len ≤ max_size → n + len ≤ grown_size c n len
grown_size-ge c n len h k = ground arith

resize_room :
    (len n : ℕ) (b : Buffer)
    → IsValid b
    → b.write_pos + len ≤ n
    → length b.storage ≤ n
    → n ≤ max_size
    → (resize b.storage n ≡ ok (b.storage ++ replicate (n - length b.storage) 0))
      × Roomier len b (record b { storage = b.storage ++ replicate (n - length b.storage) 0 })
resize_room len n b v h k l = (
  resize_lem b.storage n k l,
  record {
    valid = omega (arith, size);
    same_write = refl;
    same_read = refl;
    same_contents = read_grown b.storage _ b.read_pos (b.write_pos - b.read_pos) (omega arith);
    room = omega (arith, size);
    no_smaller = omega (arith, size);
  },
)
  where
    size : length (b.storage ++ replicate (n - length b.storage) 0) ≡ n
    size = omega (
      arith,
      length-append b.storage (replicate (n - length b.storage) 0),
      length-replicate {A = ℕ} (n - length b.storage) 0,
    )

resize_too_long : (xs : List ℕ) (n : ℕ) → ltb max_size n ≡ true → resize xs n ≡ err length_error
unfolding resize
resize_too_long xs n h = rw h

-- `ToBeEnough` throws, or makes room and keeps the bytes held.
to_be_enough_room :
    (c : Config) (len : ℕ) (b : Buffer)
    → len ≤ max_size
    → IsValid b
    → (to_be_enough c len b ≡ err length_error)
      ⊎ ((b' : Buffer) × (to_be_enough c len b ≡ ok b') × Roomier len b b')
unfolding to_be_enough
to_be_enough_room c len b h v = elim (Bool-cases (leb (writeable_size b) len)) [
  | inr plenty ↦ inr (
    b,
    rw plenty,
    record {
      valid = v;
      same_write = refl;
      same_read = refl;
      same_contents = refl;
      room = omega (arith, not-leb→lt _ _ plenty);
      no_smaller = omega arith;
    },
  )
  | inl short ↦
      let size : ℕ = grown_size c (length b.storage) len in
      let enough : length b.storage + len ≤ size =
        grown_size-ge c (length b.storage) len v.small h in
      elim (Bool-cases (ltb max_size size)) [
        | inl big ↦ inl (rw (short, resize_too_long b.storage size big))
        | inr fits ↦
            let (done, roomy) =
              resize_room len size b v (omega arith) (omega arith) (not-ltb→le _ _ fits) in
            inr (_, rw (short, done), roomy)
      ]
]

-- A push keeps the buffer valid, appends its bytes to those held, and never shrinks the storage.
pub record Pushed (ds : List ℕ) (b b' : Buffer) : Type 0 where
  pub valid : IsValid b'
  pub appended : contents b' ≡ contents b ++ ds
  pub moved : b'.write_pos ≡ b.write_pos + length ds
  pub unread : b'.read_pos ≡ b.read_pos
  pub no_smaller : length b.storage ≤ length b'.storage

write_room :
    (ds : List ℕ) (b b' : Buffer)
    → IsValid b
    → Roomier (length ds) b b'
    → let s = take b'.write_pos b'.storage ++ ds ++ drop (b'.write_pos + length ds) b'.storage in
      (overwrite b'.storage b'.write_pos ds ≡ ok s)
      × Pushed ds b (record b' { storage = s; write_pos = add_size b'.write_pos (length ds) })
write_room ds b b' v r =
    let written = overwrite_lem b'.storage ds b'.write_pos (omega arith) in
    let whole : add_size b'.write_pos (length ds) ≡ b'.write_pos + length ds = omega arith in
    (
      written.0,
      record {
        valid = omega (arith, written.1);
        appended =
            rw
              (
                whole,
                read_overwritten b'.storage ds _ b'.read_pos b'.write_pos v'.ordered v'.inside,
              )
              (ap (λ t. t ++ ds) r.same_contents);
        moved = omega arith;
        unread = r.same_read;
        no_smaller = omega (arith, written.1);
      },
    )
  where
    open r use {valid as v', room, same_write, same_read, no_smaller}

-- Pushing at most 2^63 - 1 bytes into a valid buffer throws length_error, or keeps it valid,
-- appends the bytes to those held, moves the write position past them, leaves the read position
-- and never shrinks the storage.
pub push-Pushed :
    (c : Config) (ds : List ℕ) (b : Buffer)
    → length ds ≤ max_size
    → IsValid b
    → (push c ds b ≡ err length_error) ⊎ ((b' : Buffer) × (push c ds b ≡ ok b') × Pushed ds b b')
unfolding push
push-Pushed c ds b h v = elim (to_be_enough_room c (length ds) b h v) [
  | inl e ↦ inl (rw e)
  | inr (b', e, r) ↦ let (w, p) = write_room ds b b' v r in inr (_, rw (e, w), p)
]

resize-ne-err :
    {A : Type 0} (xs : List ℕ) (n : ℕ) (f : List ℕ → A)
    → n ≤ max_size
    → (do s ← resize xs n; ok (f s)) ≢ err length_error
unfolding resize
resize-ne-err xs n f h e = ground arith

to_be_enough-ne-err :
    (c : Config) (len : ℕ) (b : Buffer)
    → grown_size c (length b.storage) len ≤ max_size
    → to_be_enough c len b ≢ err length_error
unfolding to_be_enough
to_be_enough-ne-err c len b h e = elim (Bool-cases (leb (writeable_size b) len)) [
  | inr plenty ↦ cc (rw plenty at e)
  | inl short ↦
      resize-ne-err b.storage (grown_size c (length b.storage) len) (λ s. record b { storage = s })
        h (rw short at e)
]

-- If the size that the growth rule asks for and the number of bytes are at most 2^63 - 1, a push
-- into a valid buffer succeeds: it keeps it valid, appends the bytes to those held, moves the
-- write position past them, leaves the read position and never shrinks the storage.
pub push_total :
    (c : Config) (ds : List ℕ) (b : Buffer)
    → grown_size c (length b.storage) (length ds) ≤ max_size
    → length ds ≤ max_size
    → IsValid b
    → (b' : Buffer) × (push c ds b ≡ ok b') × Pushed ds b b'
unfolding push
push_total c ds b k h v = elim (to_be_enough_room c (length ds) b h v) [
  | inl e ↦ absurd (to_be_enough-ne-err c (length ds) b k e)
  | inr (b', e, r) ↦ let (w, p) = write_room ds b b' v r in (_, rw (e, w), p)
]

-- What a push that succeeds has done.
pub push-ok :
    (c : Config) (ds : List ℕ) (b b' : Buffer)
    → length ds ≤ max_size
    → IsValid b
    → push c ds b ≡ ok b'
    → Pushed ds b b'
push-ok c ds b b' h v e = elim (push-Pushed c ds b h v) [
  | inl failed ↦ cc (e, failed)
  | inr (b'', done, p) ↦ let q : b'' ≡ b' = cc (e, done) in rw q at p
]
