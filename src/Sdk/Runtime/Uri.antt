-- ===== src/Sdk/Runtime/Uri.antt =====
-- `encodeURIComponent` and `decodeURIComponent`, by which sdk/runtime.ts and sdk/apis write texts into
-- addresses and read file names.
--
-- A text is a sequence of code points here. One with half a surrogate pair, for which the language throws,
-- is no such sequence. What is decoded is the list of code points.
pub mod RoundTrip
use Prim.Native.Char.{Char, code}
use Prim.Native.String
use mathlib.Core.List.{List, [], ◌∷◌}
use ragbag.Common.{
  ℕ, suc, ◌+◌, ◌-◌, ◌*◌, ◌/◌, ◌%◌, ◌≡◌, refl, String, Bool, true, false, ◌&&◌, ◌||◌, Option, none,
  some, if◌then◌else◌, ltb, leb, ◌==◌,
}
use ragbag.Common.Text.{◌<+>◌}

-- Letters, digits and - _ . ! ~ * ' ( )
unfoldable pub is_unreserved : ℕ → Bool
is_unreserved c =
    leb b'a' c && leb c b'z'
    || leb b'A' c && leb c b'Z'
    || leb b'0' c && leb c b'9'
    || c == b'-'
    || c == b'_'
    || c == b'.'
    || c == b'!'
    || c == b'~'
    || c == b'*'
    || c == b'\''
    || c == b'('
    || c == b')'

abbrev pub utf8_bytes : ℕ → List ℕ
utf8_bytes c =
    if ltb c 0x80
    then c ∷ []
    else if ltb c 0x800
    then (0xc0 + c / 64) ∷ (0x80 + c % 64) ∷ []
    else if ltb c 0x1_0000
    then (0xe0 + c / 4096) ∷ (0x80 + c / 64 % 64) ∷ (0x80 + c % 64) ∷ []
    else (0xf0 + c / 262144) ∷ (0x80 + c / 4096 % 64) ∷ (0x80 + c / 64 % 64) ∷ (0x80 + c % 64) ∷ []

unfoldable pub hex_digit : ℕ → Char
hex_digit n =
    if n == 0
    then "0"
    else if n == 1
    then "1"
    else if n == 2
    then "2"
    else if n == 3
    then "3"
    else if n == 4
    then "4"
    else if n == 5
    then "5"
    else if n == 6
    then "6"
    else if n == 7
    then "7"
    else if n == 8
    then "8"
    else if n == 9
    then "9"
    else if n == 10
    then "A"
    else if n == 11
    then "B"
    else if n == 12
    then "C"
    else if n == 13
    then "D"
    else if n == 14
    then "E"
    else "F"

abbrev pub percent : ℕ → String → String
percent b rest =
    String.◌∷◌ "%" (String.◌∷◌ (hex_digit (b / 16)) (String.◌∷◌ (hex_digit (b % 16)) rest))

abbrev pub percents : List ℕ → String → String
percents [] rest = rest
percents (b ∷ bs) rest = percent b (percents bs rest)

unfoldable pub encode_uri_component : String → String
unfolding is_unreserved hex_digit
encode_uri_component String.[] = ""
encode_uri_component (String.◌∷◌ c s) =
    let rest = encode_uri_component s in
    if is_unreserved (code c) then String.◌∷◌ c rest else percents (utf8_bytes (code c)) rest

unfoldable pub hex_value : ℕ → Option ℕ
hex_value c =
    if leb b'0' c && leb c b'9'
    then some (c - b'0')
    else if leb b'A' c && leb c b'F'
    then some (c - 55)
    else if leb b'a' c && leb c b'f'
    then some (c - 87)
    else none

-- A character that stands for itself, or a byte that was escaped.
pub data Piece : Type 0 where
  plain byte : ℕ → Piece

abbrev pub two_digits : Option ℕ → Option ℕ → Option ℕ
two_digits (some h) (some l) = some (h * 16 + l)
two_digits _ _ = none

abbrev pub add_piece : Option Piece → Option (List Piece) → Option (List Piece)
add_piece (some p) (some ps) = some (p ∷ ps)
add_piece _ _ = none

abbrev pub byte_piece : Option ℕ → Option Piece
byte_piece none = none
byte_piece (some b) = some (byte b)

-- none where an escape is malformed
unfoldable pub pieces : String → Option (List Piece)
unfolding hex_value
pieces String.[] = some []
pieces (String.◌∷◌ c String.[]) = if code c == b'%' then none else some (plain (code c) ∷ [])
pieces (String.◌∷◌ c (String.◌∷◌ d String.[])) =
    let rest = pieces (String.◌∷◌ d String.[]) in
    if code c == b'%' then none else add_piece (some (plain (code c))) rest
pieces (String.◌∷◌ c (String.◌∷◌ d (String.◌∷◌ e s))) =
    let escaped =
      add_piece (byte_piece (two_digits (hex_value (code d)) (hex_value (code e)))) (pieces s) in
    let itself = add_piece (some (plain (code c))) (pieces (String.◌∷◌ d (String.◌∷◌ e s))) in
    if code c == b'%' then escaped else itself

-- What a byte does to a reader of UTF-8 that still needs `n` bytes.
pub data Next : Type 0 where
  bad : Next
  emit : ℕ → Next
  more : ℕ → ℕ → ℕ → Next

-- The first byte of a character: how many follow, its own bits, the least code point of that length.
unfoldable pub first_byte : ℕ → Next
first_byte b =
    if ltb b 0x80
    then emit b
    else if ltb b 0xc2
    then bad
    else if ltb b 0xe0
    then more 1 (b - 0xc0) 0x80
    else if ltb b 0xf0
    then more 2 (b - 0xe0) 0x800
    else if ltb b 0xf5
    then more 3 (b - 0xf0) 0x1_0000
    else bad

-- Not too long a form, not half a surrogate pair, not past the last code point.
abbrev is_scalar : ℕ → ℕ → Bool
is_scalar low c = leb low c && (ltb c 0xd800 || leb 0xe000 c) && leb c 0x10_ffff

unfoldable pub later_byte : ℕ → ℕ → ℕ → ℕ → Next
later_byte n bits low b =
    let c = bits * 64 + (b - 0x80) in
    if ltb b 0x80 || leb 0xc0 b
    then bad
    else if n == 1
    then if is_scalar low c then emit c else bad
    else more (n - 1) c low

abbrev next_byte : ℕ → ℕ → ℕ → ℕ → Next
next_byte n bits low b = if n == 0 then first_byte b else later_byte n bits low b

abbrev add_code : ℕ → Option (List ℕ) → Option (List ℕ)
add_code c none = none
add_code c (some cs) = some (c ∷ cs)

unfoldable pub utf8_codes : ℕ → ℕ → ℕ → List Piece → Option (List ℕ)
unfolding first_byte later_byte
utf8_codes n bits low [] = if n == 0 then some [] else none
utf8_codes n bits low (plain c ∷ ps) =
    let rest = add_code c (utf8_codes 0 0 0 ps) in if n == 0 then rest else none
utf8_codes n bits low (byte b ∷ ps) = elim (next_byte n bits low b) [
  | bad ↦ none
  | emit c ↦ add_code c (utf8_codes 0 0 0 ps)
  | more n' bits' low' ↦ utf8_codes n' bits' low' ps
]

-- none where the language throws a `URIError`
unfoldable pub decode_uri_component : String → Option (List ℕ)
unfolding pieces utf8_codes
decode_uri_component s = elim (pieces s) [ none ↦ none | some ps ↦ utf8_codes 0 0 0 ps ]
