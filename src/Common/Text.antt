-- ===== src/Common/Text.antt =====
-- Texts character by character: prefixes, suffixes, substrings and segments.
use Prim.Native.Char.{code}
use Prim.Native.String
use Prim.Native.String.{String, [], ◌∷◌}
use mathlib.Core.Path.{◌≡◌, refl}
use mathlib.Core.Bool.{Bool, true, false, ◌||◌}
use mathlib.Core.Option.{Option, none, some}
use text.Mathlib.TextLemmas.{nil-append, cons-append}
use ragbag.Common.Tests.{◌==◌, ◌===◌, if◌then◌else◌, ==_iff}

-- `` `${s}${t}` ``
infixr 64 ◌<+>◌
abbrev pub ◌<+>◌ : String → String → String
s <+> t = String.◌++◌ s t

-- What follows the prefix, if the text has it.
unfoldable pub strip_prefix : String → String → Option String
strip_prefix [] s = some s
strip_prefix (p ∷ ps) [] = none
strip_prefix (p ∷ ps) (c ∷ s) = if code p == code c then strip_prefix ps s else none

abbrev pub is_some {ℓ} : {A : Type ℓ} → Option A → Bool
is_some none = false
is_some (some a) = true

-- `s.startsWith(p)`
abbrev pub starts_with : String → String → Bool
starts_with s p = is_some (strip_prefix p s)

-- `s.endsWith(t)`
unfoldable pub ends_with : String → String → Bool
ends_with [] t = "" === t
ends_with (c ∷ s) t = (c ∷ s) === t || ends_with s t

-- `s.includes(t)`
unfoldable pub has_substring : String → String → Bool
unfolding strip_prefix
has_substring [] t = starts_with "" t
has_substring (c ∷ s) t = starts_with (c ∷ s) t || has_substring s t

-- The longest beginning without a slash: what `[^/]*` matches.
unfoldable pub segment : String → String
segment [] = ""
segment (c ∷ s) = if code c == b'/' then "" else c ∷ segment s

pub strip_prefix-append : (p s : String) → strip_prefix p (p <+> s) ≡ some s
unfolding strip_prefix
strip_prefix-append [] s = rw nil-append
strip_prefix-append (c ∷ p) s =
    rw (cons-append c p s, (==_iff (code c) (code c)).1 refl) (strip_prefix-append p s)
