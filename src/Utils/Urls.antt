-- ===== src/Utils/Urls.antt =====
-- ui/v1/src/lib/utils/format.ts: `getDomain` and `safeUrl`, with what the pages take from the browser.
--
-- The browser's part is a parameter: the collator of its language, its parser of addresses (`new URL`), and
-- what `trim` and `toLowerCase` make of a text, which the language takes from Unicode tables. Of these
-- the code relies on one thing, that the collator is an order.
use ragbag.Common.{
  ◌≡◌, ◌⊎◌, inl, inr, refl, String, Bool, true, false, ◌||◌, Option, none, some, if◌then◌else◌,
  truthy, ◌===◌, arith, subst,
}
use ragbag.Utils.Sort.{Sign, IsOrder}

-- A parsed address, as far as the code reads it.
pub record Url : Type 0 where
  pub protocol : String
  pub hostname : String

pub record Browser : Type 0 where
  pub collate : String → String → Sign
  pub collate-IsOrder : IsOrder collate
  -- none where `new URL` throws
  pub parse_url : String → Option Url
  pub trim : String → String
  pub to_lower_case : String → String

pub if_some :
    (b : Bool) (x y : String) → (if b then some x else none) ≡ some y → (b ≡ true) × (x ≡ y)
if_some true x y h = (refl, ground arith)
if_some false x y h = cc

pub if_cases : (b : Bool) (x y z : Option String) → (if b then x else y) ≡ z → (x ≡ z) ⊎ (y ≡ z)
if_cases true x y z h = inl h
if_cases false x y z h = inr h

module _ (browser : Browser) where
  unfoldable pub get_domain : String → String
  get_domain url = elim (browser.parse_url url) [ none ↦ url | some parsed ↦ parsed.hostname ]

  abbrev pub is_web : Url → Bool
  is_web parsed = parsed.protocol === "http:" || parsed.protocol === "https:"

  abbrev pub web_only : String → Option Url → Option String
  web_only url none = none
  web_only url (some parsed) = if is_web parsed then some url else none

  unfoldable pub safe_url : Option String → Option String
  safe_url none = none
  safe_url (some url) = if truthy (some url) then web_only url (browser.parse_url url) else none

  -- An address that parses as one of the web.
  abbrev pub IsWeb : String → Type 0
  IsWeb url = (parsed : Url) × (browser.parse_url url ≡ some parsed) × (is_web parsed ≡ true)

  web_only-IsWeb :
      (address url : String) (o : Option Url)
      → browser.parse_url address ≡ o
      → web_only address o ≡ some url
      → IsWeb url
  web_only-IsWeb address url none e h = cc
  web_only-IsWeb address url (some parsed) e h =
      let (web, same) = if_some (is_web parsed) address url h in
      (parsed, subst (λ a. browser.parse_url a ≡ some parsed) same e, web)

  pub safe_url-IsWeb : (o : Option String) (url : String) → safe_url o ≡ some url → IsWeb url
  unfolding safe_url
  safe_url-IsWeb none url h = cc
  safe_url-IsWeb (some address) url h =
      elim (if_cases (truthy (some address)) (web_only address (browser.parse_url address)) none
        (some url) h) [
          | inl k ↦ web_only-IsWeb address url (browser.parse_url address) refl k
          | inr k ↦ cc
        ]
