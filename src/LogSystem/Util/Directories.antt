-- ===== src/LogSystem/Util/Directories.antt =====
-- logSystem/logsCode/Util.hpp, `CreateDirectory`: the directories that are there afterwards.
use asyn_log_system.Prelude.{
  &&-true, false, sym, append-nil, append_assoc, subst, ℕ, [], inr, inl, ◌||◌, not, Bool-cases,
  arith, true, ◌++◌, ◌∷◌, ◌≡◌, Bool,
}
use asyn_log_system.Prelude.Text.{text_eq_iff, codes, text_eq, Text}
use asyn_log_system.LogSystem.Util.{
  make_at, FileSystem, FileSystemLaws, is_separator, make_part, make_from, create_directory,
}

-- Whether a name has begun behind the text `m`.
unfoldable pub ends_in_name : Bool → Text → Bool
ends_in_name begun [] = begun
ends_in_name begun (x ∷ m) = ends_in_name (not (is_separator x)) m

-- What may follow a name: nothing, or a separator.
unfoldable pub ends_name : Text → Bool
ends_name [] = true
ends_name (c ∷ r) = is_separator c

module _ (fs : FileSystem) (laws : FileSystemLaws fs) where
  open fs use {State, stat, mkdir}

  make_part-keeps : (p q : Text) (s : State) → stat q s ≡ true → stat q (make_part fs p s).1 ≡ true
  unfolding make_part
  make_part-keeps p q s e = ground (arith, laws.stat-mkdir_other p q s e)

  known_there :
      (p : Text) (s : State)
      → (text_eq p (codes ".") || text_eq p (codes "..") || stat p s) ≡ true
      → stat p s ≡ true
  known_there p s e = elim (Bool-cases (text_eq p (codes "."))) [
    | inl here ↦
        subst (λ q. stat q s ≡ true) (sym ((text_eq_iff p (codes ".")).0 here)) (laws.stat-here s)
    | inr away ↦ elim (Bool-cases (text_eq p (codes ".."))) [
      | inl up ↦
          subst (λ q. stat q s ≡ true) (sym ((text_eq_iff p (codes "..")).0 up))
            (laws.stat-parent s)
      | inr other ↦ rw (away, other) at e
    ]
  ]

  make_part-there :
      (p : Text) (s : State) → (make_part fs p s).0 ≡ true → stat p (make_part fs p s).1 ≡ true
  unfolding make_part
  make_part-there p s e =
      elim (Bool-cases (text_eq p (codes ".") || text_eq p (codes "..") || stat p s)) [
        | inl known ↦ rw known (known_there p s known)
        | inr new ↦ rw new (laws.stat-mkdir p s (rw new at e))
      ]

  make_at-keeps :
      (before q : Text) (begun : Bool) (c : ℕ) (s : State)
      → stat q s ≡ true
      → stat q (make_at fs before begun c s).1 ≡ true
  unfolding make_at
  make_at-keeps before q begun c s e = ground (arith, make_part-keeps before q s e)

  at_name_end :
      (before : Text) (begun : Bool) (c : ℕ) (s : State)
      → begun ≡ true
      → is_separator c ≡ true
      → (make_at fs before begun c s).0 ≡ true
      → stat before (make_at fs before begun c s).1 ≡ true
  unfolding make_at
  at_name_end before begun c s named sep e =
      rw (sep, named) (make_part-there before s (rw (sep, named) at e))

  -- What is there stays.
  make_from-keeps :
      (before : Text) (begun : Bool) (rest q : Text) (s : State)
      → stat q s ≡ true
      → stat q (make_from fs before begun rest s).1 ≡ true
  unfolding make_from
  make_from-keeps before begun [] q s e = ground (arith, laws.stat-mkdir_other before q s e)
  make_from-keeps before begun (c ∷ rest) q s e =
      let (made, s') = make_at fs before begun c s in
      elim (Bool-cases made) [
        | inl done ↦ rw done (
            make_from-keeps (before ++ c ∷ []) (not (is_separator c)) rest q s'
              (make_at-keeps before q begun c s e))
        | inr failed ↦ rw failed (make_at-keeps before q begun c s e)
      ]

  -- If no error was printed, every name on the way that ends is there.
  make_from-there :
      (before : Text) (begun : Bool) (m r : Text) (s : State)
      → (make_from fs before begun (m ++ r) s).0 ≡ true
      → ends_in_name begun m ≡ true
      → ends_name r ≡ true
      → stat (before ++ m) (make_from fs before begun (m ++ r) s).1 ≡ true
  unfolding make_from ends_in_name ends_name
  make_from-there before begun [] [] s e named end =
      rw (append-nil before, named) (laws.stat-mkdir before s (rw named at e))
  make_from-there before begun [] (c ∷ r) s e named end =
      let (made, s') = make_at fs before begun c s in
      elim (Bool-cases made) [
        | inl done ↦
            rw (append-nil before, done)
              (make_from-keeps (before ++ c ∷ []) (not (is_separator c)) r before s'
                (at_name_end before begun c s named end done))
        | inr failed ↦ cc (rw failed at e)
      ]
  make_from-there before begun (x ∷ m) r s e named end =
      let (made, s') = make_at fs before begun x s in
      elim (Bool-cases made) [
        | inl done ↦ rw done (
            subst
              (λ p.
                stat p (make_from fs (before ++ x ∷ []) (not (is_separator x)) (m ++ r) s').1
                ≡ true)
              (append_assoc before (x ∷ []) m)
              (make_from-there (before ++ x ∷ []) (not (is_separator x)) m r s' (rw done at e) named
                end))
        | inr failed ↦ cc (rw failed at e)
      ]

  -- If CreateDirectory of a path that is not there prints no error, every part of the path up to
  -- the end of a name is there afterwards, and so is all that was there.
  pub create_directory_lem :
      (m r q : Text) (s : State)
      → stat (m ++ r) s ≡ false
      → ends_in_name false m ≡ true
      → ends_name r ≡ true
      → stat q s ≡ true
      → let (done, s') = create_directory fs (m ++ r) s in
        done ≡ true → (stat m s' ≡ true) × (stat q s' ≡ true)
  unfolding create_directory
  create_directory_lem m r q s new named end there e =
      let made =
        &&-true (make_from fs [] false (m ++ r) s).0 (not (text_eq (m ++ r) [])) (rw new at e) in
      rw new (
        make_from-there [] false m r s made.0 named end,
        make_from-keeps [] false (m ++ r) q s there,
      )
