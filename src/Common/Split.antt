-- ===== src/Common/Split.antt =====
-- Texts cut at a character, and tests on all characters of a text.
use Prim.Native.Char.{Char, code}
use Prim.Native.String.{String}
use Prim.Native.Nat.{ℕ}
use mathlib.Core.Path.{◌≡◌, refl}
use mathlib.Core.Bool.{Bool, true, ◌&&◌, not}
use mathlib.Core.List.{List, [], ◌∷◌}
use native.Mathlib.Omega.{arith}
use text.Mathlib.TextLemmas.{nil-append, cons-append}
use ragbag.Common.Tests.{◌==◌, if◌then◌else◌}
use ragbag.Common.Text.{◌<+>◌}

-- Every character of the text passes the test.
abbrev pub all_codes : (ℕ → Bool) → String → Bool
all_codes test String.[] = true
all_codes test (String.◌∷◌ c s) = test (code c) && all_codes test s

abbrev pub add_head : Char → List String → List String
add_head c [] = String.◌∷◌ c "" ∷ []
add_head c (x ∷ xs) = String.◌∷◌ c x ∷ xs

-- `s.split(separator)`, for a separator of one character.
unfoldable pub split : ℕ → String → List String
split separator String.[] = "" ∷ []
split separator (String.◌∷◌ c s) =
    let rest = split separator s in if code c == separator then "" ∷ rest else add_head c rest

-- No character is the separator.
abbrev pub lacks : ℕ → String → Bool
lacks separator s = all_codes (λ c. not (c == separator)) s

-- A part without the separator, before one that begins with it, is cut off whole.
pub split-append :
    (separator : ℕ) (c : Char) (s t : String)
    → code c ≡ separator
    → lacks separator s ≡ true
    → split separator (s <+> String.◌∷◌ c t) ≡ s ∷ split separator t
unfolding split
split-append separator c String.[] t e h = rw nil-append (ground arith)
split-append separator c (String.◌∷◌ d s) t e h =
    rw (cons-append d s (String.◌∷◌ c t), split-append separator c s t e (ground arith))
      (ground arith)

pub split_whole :
    (separator : ℕ) (s : String) → lacks separator s ≡ true → split separator s ≡ s ∷ []
unfolding split
split_whole separator String.[] h = refl
split_whole separator (String.◌∷◌ d s) h =
    rw (split_whole separator s (ground arith)) (ground arith)

pub all_codes-append :
    (test : ℕ → Bool) (s t : String)
    → all_codes test (s <+> t) ≡ (all_codes test s && all_codes test t)
all_codes-append test String.[] t = rw nil-append
all_codes-append test (String.◌∷◌ c s) t =
    rw (cons-append c s t) (ground (arith, all_codes-append test s t))

-- A test that implies another does so for a whole text.
pub all_codes_weaken :
    (p q : ℕ → Bool) (s : String)
    → ((c : ℕ) → p c ≡ true → q c ≡ true)
    → all_codes p s ≡ true
    → all_codes q s ≡ true
all_codes_weaken p q String.[] h a = refl
all_codes_weaken p q (String.◌∷◌ c s) h a = ground (arith, h (code c), all_codes_weaken p q s h)
