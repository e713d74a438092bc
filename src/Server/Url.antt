-- ===== src/Server/Url.antt =====
-- src/server/Util.hpp, `ToHex`, `FromHex` and `UrlDecode`.
pub mod Laws
use asyn_log_system.Prelude.{
  ℕ, ◌+◌, ◌-◌, ◌*◌, ◌%◌, ◌^◌, ◌≡◌, refl, Bool, ◌&&◌, List, [], ◌∷◌, ltb, leb, ◌==◌, if◌then◌else◌,
  Result, ok, err, ◌>>=◌,
}
use asyn_log_system.Prelude.Text.{Text, codes}
use asyn_log_system.Server.DataManager.RwLock.{Fault, assertion}

-- `ToHex(x)`; the sums are `unsigned char`.
unfoldable pub to_hex : ℕ → ℕ
to_hex x = if ltb 9 x then (x + 55) % 256 else (x + 48) % 256

-- `FromHex(x)`, which asserts that `x` is a letter or a digit.
unfoldable pub from_hex : ℕ → Result Fault ℕ
from_hex x =
    if leb b'A' x && leb x b'Z'
    then ok (x - b'A' + 10)
    else if leb b'a' x && leb x b'z'
    then ok (x - b'a' + 10)
    else if leb b'0' x && leb x b'9'
    then ok (x - b'0')
    else err assertion

-- `char (high * 16 + low)`.
abbrev pub byte_of : ℕ → ℕ → ℕ
byte_of high low = (high * 16 + low) % 256

-- `UrlDecode(str)` from some index on, with the text decoded before it in front of the result.
-- `assert(i + 2 < length)` fails where a `%` has fewer than two bytes behind it.
unfoldable pub url_decode : Text → Result Fault Text
url_decode [] = ok []
url_decode (c ∷ []) = if c == b'%' then err assertion else ok (c ∷ [])
url_decode (c ∷ a ∷ []) =
    let rest = url_decode (a ∷ []) in if c == b'%' then err assertion else do s ← rest; ok (c ∷ s)
url_decode (c ∷ a ∷ b ∷ s) =
    let escaped = url_decode s in
    let plain = url_decode (a ∷ b ∷ s) in
    if c == b'%'
    then (do high ← from_hex a; low ← from_hex b; t ← escaped; ok (byte_of high low ∷ t))
    else (do t ← plain; ok (c ∷ t))

hello : url_decode (codes "Hello%20World%21") ≡ ok (codes "Hello World!")
unfolding url_decode from_hex
hello = refl
