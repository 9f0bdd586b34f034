-- ===== src/Prelude/Text.antt =====
-- Text: equality of whole texts, and `not value.strip()` of Python.
use first_brief.Prelude.Tests.{leb, ◌==◌}
use Prim.Native.Nat.{ℕ, suc}
use Prim.Native.Char.{code}
use Prim.Native.String.{String}
use mathlib.Core.Path.{◌≡◌, refl}
use mathlib.Core.Bool.{Bool, true, false, ◌&&◌, ◌||◌}
use mathlib.Core.List.{List, [], ◌∷◌}
pub use text.Mathlib.Text.{◌==◌ as str_eq}
pub use text.Mathlib.TextEquality.{eq_iff}

-- `str.isspace` of one character, by its code point.
pub is_space : ℕ → Bool
is_space c =
    (leb 9 c && leb c 13)
    || (leb 28 c && leb c 32)
    || c == 133
    || c == 160
    || c == 5760
    || (leb 8192 c && leb c 8202)
    || c == 8232
    || c == 8233
    || c == 8239
    || c == 8287
    || c == 12288

-- `not text.strip()`: every character is white space.
unfoldable pub is_blank : String → Bool
unfolding is_space
is_blank String.[] = true
is_blank (String.◌∷◌ c s) = is_space (code c) && is_blank s

-- `text in texts`
unfoldable pub has_text : String → List String → Bool
has_text t [] = false
has_text t (s ∷ ss) = str_eq t s || has_text t ss

is_blank_test : is_blank " x" ≡ false
unfolding is_blank
is_blank_test = refl

is_blank_spaces : is_blank "   " ≡ true
unfolding is_blank
is_blank_spaces = refl

-- `len(s)`, in code points.
unfoldable pub text_length : String → ℕ
text_length String.[] = 0
text_length (String.◌∷◌ c s) = suc (text_length s)

-- `any(p(c) for c in s)`, by code point.
unfoldable pub any_char : (ℕ → Bool) → String → Bool
any_char p String.[] = false
any_char p (String.◌∷◌ c s) = p (code c) || any_char p s

-- `s.startswith(t)`
unfoldable pub starts_with : String → String → Bool
starts_with s String.[] = true
starts_with String.[] (String.◌∷◌ c t) = false
starts_with (String.◌∷◌ d s) (String.◌∷◌ c t) = code c == code d && starts_with s t

-- `t in s`
unfoldable pub includes : String → String → Bool
unfolding starts_with
includes String.[] t = starts_with "" t
includes (String.◌∷◌ c s) t = starts_with (String.◌∷◌ c s) t || includes s t

includes_test : includes "brief-1234" "ief" ≡ true
unfolding includes
includes_test = refl

pub str_eq_refl : (s : String) → str_eq s s ≡ true
str_eq_refl s = (eq_iff s s).1 refl

pub str_eq-same : (s t : String) → str_eq s t ≡ true → s ≡ t
str_eq-same s t same = (eq_iff s t).0 same
