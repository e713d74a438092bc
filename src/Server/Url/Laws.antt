-- ===== src/Server/Url/Laws.antt =====
-- src/server/Util.hpp: decoding undoes encoding, and which texts the decoder accepts.
use asyn_log_system.Prelude.{
  inr, ==_iff, inl, Bool-cases, ℕ, ◌/◌, ◌%◌, ◌<◌, ◌≡◌, refl, ap, Bool, true, false, [], ◌∷◌, ◌==◌,
  if◌then◌else◌, ok, arith,
}
use asyn_log_system.Prelude.Text.{Text}
use asyn_log_system.Server.Url.{to_hex, from_hex, byte_of, url_decode}

-- `FromHex` undoes `ToHex` on the digits of base 16.
from_hex-to_hex : (x : ℕ) → x < 16 → from_hex (to_hex x) ≡ ok x
unfolding from_hex to_hex
from_hex-to_hex x h = ground arith

-- The percent encoding of the bytes for which `keep` does not hold, with the digits of `ToHex`.
unfoldable pub url_encode : (ℕ → Bool) → Text → Text
url_encode keep [] = []
url_encode keep (c ∷ s) =
    let rest = url_encode keep s in
    if keep c then c ∷ rest else b'%' ∷ to_hex (c / 16) ∷ to_hex (c % 16) ∷ rest

-- The bytes of a text are bytes.
abbrev pub IsBytes : Text → Type 0
IsBytes [] = Unit
IsBytes (c ∷ s) = (c < 256) × IsBytes s

-- A byte other than `%` stands for itself.
url_decode-plain :
    (c : ℕ) (s t : Text)
    → (c == b'%') ≡ false
    → url_decode s ≡ ok t
    → url_decode (c ∷ s) ≡ ok (c ∷ t)
unfolding url_decode
url_decode-plain c [] t h e = ground arith
url_decode-plain c (a ∷ []) t h e = rw (h, e)
url_decode-plain c (a ∷ b ∷ s) t h e = rw (h, e)

-- An escape stands for its byte.
url_decode-escape :
    (c : ℕ) (s t : Text)
    → c < 256
    → url_decode s ≡ ok t
    → url_decode (b'%' ∷ to_hex (c / 16) ∷ to_hex (c % 16) ∷ s) ≡ ok (c ∷ t)
unfolding url_decode
url_decode-escape c s t h e =
    let whole : byte_of (c / 16) (c % 16) ≡ c = omega arith in
    rw (from_hex-to_hex (c / 16) (omega arith), from_hex-to_hex (c % 16) (omega arith), e, whole)

-- Percent encoding, whichever bytes other than the percent sign it leaves, is undone by UrlDecode.
pub url_decode-url_encode :
    (keep : ℕ → Bool) (s : Text)
    → keep b'%' ≡ false
    → IsBytes s
    → url_decode (url_encode keep s) ≡ ok s
unfolding url_encode
url_decode-url_encode keep [] k h = unfold url_decode in refl
url_decode-url_encode keep (c ∷ s) k h = elim (Bool-cases (keep c)) [
  | inl kept ↦ rw kept (
      url_decode-plain c (url_encode keep s) s (not_percent kept)
        (url_decode-url_encode keep s k h.1))
  | inr escaped ↦
      rw escaped
        (url_decode-escape c (url_encode keep s) s h.0 (url_decode-url_encode keep s k h.1))
]
  where
    not_percent : keep c ≡ true → (c == b'%') ≡ false
    not_percent kept = elim (Bool-cases (c == b'%')) [
      | inl e ↦ cc (k, kept, ap keep ((==_iff c b'%').0 e))
      | inr e ↦ e
    ]
