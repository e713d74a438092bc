-- ===== src/LogSystem/Flush/Names.antt =====
-- logSystem/logsCode/LogFlush.hpp, `CreateFilename`: the names of rolling log files.
use mathlib.Core.List.{append_cancel_right}
use asyn_log_system.Prelude.{
  ℕ, ◌+◌, ◌≡◌, ◌≢◌, refl, sym, ap, ◌∙◌, false, [], ◌∷◌, ◌++◌, ◌==◌, arith,
}
use asyn_log_system.Prelude.Text.{Text, codes, has, has-append, after_last, after_last-append}
use asyn_log_system.Prelude.Decimal.{decimal, decimal_injective, is_not_digit, has-decimal}

-- `struct tm`, the members that are read.
pub record Tm : Type 0 where
  pub year : ℕ
  pub mon : ℕ
  pub mday : ℕ
  pub hour : ℕ
  pub min : ℕ
  pub sec : ℕ

-- The data of a flush at some time.
abbrev pub text_of : Tm × Text → Text
text_of (now, s) = s

-- `CreateFilename()`, with the counter before it is incremented.
unfoldable pub create_filename : Text → Tm → ℕ → Text
create_filename basename t cnt =
    basename
    ++ decimal (t.year + 1900)
    ++ decimal (t.mon + 1)
    ++ decimal t.mday
    ++ decimal t.hour
    ++ decimal t.min
    ++ decimal t.sec
    ++ (b'-' ∷ decimal cnt ++ codes ".log")

-- A text of digits holds no hyphen.
has-digits : (s : Text) → has is_not_digit s ≡ false → has (λ x. x == b'-') s ≡ false
unfolding has
has-digits [] h = refl
has-digits (x ∷ s) h = ground (arith, has-digits s)

-- The counter can be read off the name.
pub create_filename_injective :
    (basename basename' : Text) (t t' : Tm) (m n : ℕ)
    → create_filename basename t m ≡ create_filename basename' t' n
    → m ≡ n
unfolding create_filename has
create_filename_injective basename basename' t t' m n e = decimal_injective m n (
    append_cancel_right (decimal m) (decimal n) (codes ".log")
      (sym (tail basename t m) ∙ ap (after_last (λ x. x == b'-')) e ∙ tail basename' t' n))
  where
    tail :
        (basename : Text) (t : Tm) (k : ℕ)
        → after_last (λ x. x == b'-') (create_filename basename t k) ≡ decimal k ++ codes ".log"
    tail basename t k =
        after_last-append (λ x. x == b'-') _ (decimal k ++ codes ".log") b'-' refl
          (rw
            (
              has-append (λ x. x == b'-') (decimal k) (codes ".log"),
              has-digits (decimal k) (has-decimal k),
            )
            refl)

-- Log files made with different counters have different names, at whatever times they are made and
-- whatever their basenames are.
pub create_filename-ne :
    (basename basename' : Text) (t t' : Tm) (m n : ℕ)
    → m ≢ n
    → create_filename basename t m ≢ create_filename basename' t' n
create_filename-ne basename basename' t t' m n ne e =
    ne (create_filename_injective basename basename' t t' m n e)
