-- ===== src/Sdk/Runtime.antt =====
-- ui/v1/src/lib/sdk/runtime.ts: what all operations of the API share.
--
-- What the code takes from the browser is a parameter, `Platform`: dates, the text of a date in the language of
-- the user, which values are binary, and the tables of Unicode.
pub mod Uri
pub mod Query
pub mod Mime
pub mod Request
use ragbag.Common.{
  ℕ, zero, suc, ◌/◌, ◌%◌, String, Bool, true, false, Option, none, some, List, [], ◌∷◌,
  if◌then◌else◌, ◌==◌, keep, not, ◌===◌,
}
use ragbag.Common.Text.{◌<+>◌}
use ragbag.Sdk.Value.{
  Value, undefined, null, bool, num, text, date, arr, obj, Items, nil, cons, Dates, is_nullish,
}

pub record Platform : Type 0 where
  pub dates : Dates
  pub date_text : Option ℕ → String
  -- a `Blob`, which a request sends as it is
  pub is_blob : Value → Bool

abbrev digit : ℕ → String
digit n =
    if n == 0
    then "0"
    else if n == 1
    then "1"
    else if n == 2
    then "2"
    else if n == 3
    then "3"
    else if n == 4
    then "4"
    else if n == 5
    then "5"
    else if n == 6
    then "6"
    else if n == 7
    then "7"
    else if n == 8
    then "8"
    else "9"

-- The digits of a number that has no more than `fuel` of them, before `rest`.
digits : ℕ → ℕ → String → String
digits zero n rest = rest
digits (suc fuel) n rest =
    let more = digits fuel (n / 10) (digit (n % 10) <+> rest) in
    if n / 10 == 0 then digit (n % 10) <+> rest else more

unfoldable pub decimal : ℕ → String
unfolding digits
decimal n = digits (suc n) n ""

-- `parts.join(separator)`
unfoldable pub join : String → List String → String
join separator [] = ""
join separator (x ∷ []) = x
join separator (x ∷ y ∷ rest) = x <+> separator <+> join separator (y ∷ rest)

abbrev unless_nullish : Value → String → String
unless_nullish v shown_v = if is_nullish v then "" else shown_v

module _ (platform : Platform) where
  -- `String(value)`; the text of an array leaves out what is null.
  unfoldable mutual
    unfolding decimal

    pub shown : Value → String
    shown undefined = "undefined"
    shown null = "null"
    shown (bool true) = "true"
    shown (bool false) = "false"
    shown (num n) = decimal n
    shown (text s) = s
    shown (date t) = platform.date_text t
    shown (arr nil) = ""
    shown (arr (cons v vs)) = unless_nullish v (shown v) <+> later_items vs
    shown (obj fs) = "[object Object]"

    later_items : Items → String
    later_items nil = ""
    later_items (cons v vs) = "," <+> unless_nullish v (shown v) <+> later_items vs
