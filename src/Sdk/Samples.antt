-- ===== src/Sdk/Samples.antt =====
-- A small platform for the tests.
use Prim.Native.String.{count}
use package.text.Mathlib.TextLemmas.{length-append}
use ragbag.Common.{ℕ, zero, suc, ◌≡◌, refl, String, false, some, arith, ap}
use ragbag.Common.Text.{◌<+>◌}
use ragbag.Sdk.Value.{Dates}
use ragbag.Sdk.Runtime.{Platform}

-- A time is written as so many characters.
abbrev iso : ℕ → String
iso zero = ""
iso (suc t) = "x" <+> iso t

pub count-iso : (t : ℕ) → count (iso t) ≡ t
count-iso zero = refl
count-iso (suc t) = omega (arith, length-append "x" (iso t), count-iso t)

abbrev pub unary : Dates
unary = record { parse = λ s. some (count s); iso = iso; parse-iso = λ t. ap some (count-iso t) }

abbrev pub platform : Platform
platform = record { dates = unary; date_text = λ t. "a day"; is_blob = λ v. false }
