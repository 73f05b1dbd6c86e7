-- ===== src/Sdk/Runtime/Mime.antt =====
-- `isJsonMime` of sdk/runtime.ts: its pattern as a matcher, one function for each part of it.
use Prim.Native.Char.{code}
use ragbag.Common.{
  ℕ, ◌+◌, ◌≡◌, refl, String, Bool, true, false, not, ◌&&◌, ◌||◌, Option, none, some, if◌then◌else◌,
  ◌==◌, leb,
}
use ragbag.Common.Split.{all_codes}

-- The flag `i`.
abbrev pub folded : ℕ → ℕ
folded c = if leb b'A' c && leb c b'Z' then c + 32 else c

-- What follows a word, whatever the case of its letters.
unfoldable pub strip_word : String → String → Option String
strip_word String.[] s = some s
strip_word (String.◌∷◌ p ps) String.[] = none
strip_word (String.◌∷◌ p ps) (String.◌∷◌ c s) =
    if folded (code p) == folded (code c) then strip_word ps s else none

abbrev is_blank : ℕ → Bool
is_blank c = c == b' ' || c == b'\t'

-- `.` matches all but the ends of lines.
abbrev is_dot : ℕ → Bool
is_dot c = not (c == b'\n' || c == b'\r' || c == 0x2028 || c == 0x2029)

-- `;.*`
abbrev semicolon_on : String → Bool
semicolon_on String.[] = false
semicolon_on (String.◌∷◌ c s) = code c == b';' && all_codes is_dot s

-- `(:?;.*)?$`: the group begins with a colon that may be missing.
abbrev tail : String → Bool
tail String.[] = true
tail (String.◌∷◌ c s) = semicolon_on (String.◌∷◌ c s) || (code c == b':' && semicolon_on s)

-- `[ \t]*` and what follows it
unfoldable pub blanks_and_tail : String → Bool
blanks_and_tail String.[] = true
blanks_and_tail (String.◌∷◌ c s) =
    let rest = blanks_and_tail s in if is_blank (code c) then rest else tail (String.◌∷◌ c s)

abbrev ends_after : Option String → Bool
ends_after none = false
ends_after (some s) = blanks_and_tail s

-- `[^;/ \t]`
abbrev is_token : ℕ → Bool
is_token c = not (c == b';' || c == b'/' || is_blank c)

-- `[^;/ \t]+[+]json` and what follows it; the flag says whether a character was read already.
unfoldable pub subtype_on : Bool → String → Bool
unfolding strip_word blanks_and_tail
subtype_on seen String.[] = false
subtype_on seen (String.◌∷◌ c s) =
    seen && ends_after (strip_word "+json" (String.◌∷◌ c s))
    || is_token (code c) && subtype_on true s

-- `[^;/ \t]+\/` and what follows it
unfoldable pub type_on : Bool → String → Bool
unfolding subtype_on
type_on seen String.[] = false
type_on seen (String.◌∷◌ c s) =
    seen && code c == b'/' && subtype_on false s || is_token (code c) && type_on true s

-- `:?`
abbrev without_colon : String → String
without_colon String.[] = ""
without_colon (String.◌∷◌ c s) = if code c == b':' then s else String.◌∷◌ c s

unfoldable pub is_json_mime : Option String → Bool
unfolding strip_word blanks_and_tail type_on
is_json_mime none = false
is_json_mime (some mime) =
    ends_after (strip_word "application/json" (without_colon mime)) || type_on false mime

json_parameters : is_json_mime (some "Application/JSON ; charset=UTF8") ≡ true
unfolding is_json_mime
json_parameters = refl

json_suffix : is_json_mime (some "application/vnd.company+json") ≡ true
unfolding is_json_mime
json_suffix = refl

not_json : is_json_mime (some "application/octet-stream") ≡ false
unfolding is_json_mime
not_json = refl

-- The pattern writes `(:?` where `(?:` is meant.
colon_first : is_json_mime (some ":application/json") ≡ true
unfolding is_json_mime
colon_first = refl
