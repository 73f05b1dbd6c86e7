-- ===== src/Sdk/Runtime/Uri/RoundTrip.antt =====
-- What is encoded for an address is decoded to the same text, and has no character that means anything
-- in an address.
use Prim.Native.Nat.{Ordering, compare}
use Prim.Native.Char.{Char, char, code, IsLt}
use ragbag.Common.{
  ℕ, zero, suc, ◌/◌, ◌%◌, ◌≡◌, ◌≤◌, ◌<◌, ◌⊎◌, inl, inr, refl, String, Bool, true, false, ◌&&◌, ◌||◌,
  Option, none, some, List, [], ◌∷◌, if◌then◌else◌, ◌==◌, arith, ap, ◌∙◌, Bool-cases, All,
}
use ragbag.Common.Split.{all_codes}
use ragbag.Sdk.Runtime.Uri.{
  is_unreserved, utf8_bytes, hex_digit, hex_value, percent, percents, encode_uri_component, Piece,
  plain, byte, add_piece, pieces, utf8_codes, add_code, decode_uri_component,
}

-- The code points of a text.
abbrev pub codes : String → List ℕ
codes String.[] = []
codes (String.◌∷◌ c s) = code c ∷ codes s

abbrev reads_back : ℕ → Bool
reads_back n = elim (hex_value (code (hex_digit n))) [ none ↦ false | some m ↦ m == n ]

abbrev holds_below : (ℕ → Bool) → ℕ → Bool
holds_below test zero = true
holds_below test (suc n) = holds_below test n && test n

holds_below_at : (test : ℕ → Bool) (n m : ℕ) → holds_below test n ≡ true → m < n → test m ≡ true
holds_below_at test zero m h lt = absurd (omega arith)
holds_below_at test (suc n) m h lt = ground (arith, holds_below_at test n m)

all_digits : holds_below reads_back 16 ≡ true
unfolding hex_value hex_digit
all_digits = refl

found_equal :
    (found : Option ℕ) (n : ℕ)
    → elim found [ none ↦ false | some m ↦ m == n ] ≡ true
    → found ≡ some n
found_equal none n h = cc
found_equal (some m) n h = ground arith

hex_value-hex_digit : (n : ℕ) → n < 16 → hex_value (code (hex_digit n)) ≡ some n
hex_value-hex_digit n h = found_equal _ n (holds_below_at reads_back 16 n all_digits h)

pieces-percent :
    (b : ℕ) (rest : String)
    → b < 256
    → pieces (percent b rest) ≡ add_piece (some (byte b)) (pieces rest)
unfolding pieces
pieces-percent b rest h =
    rw (hex_value-hex_digit (b / 16) (omega arith), hex_value-hex_digit (b % 16) (omega arith))
      (ap (λ n. add_piece (some (byte n)) (pieces rest)) (omega arith))

pieces-plain :
    (c : Char) (s : String)
    → is_unreserved (code c) ≡ true
    → pieces (String.◌∷◌ c s) ≡ add_piece (some (plain (code c))) (pieces s)
unfolding pieces is_unreserved
pieces-plain c String.[] h = ground arith
pieces-plain c (String.◌∷◌ d String.[]) h = ground arith
pieces-plain c (String.◌∷◌ d (String.◌∷◌ e s)) h = ground arith

abbrev Scalar : ℕ → Type 0
Scalar c = (c ≤ 0x10_ffff) × ((c < 0xd800) ⊎ (0xe000 ≤ c))

-- Why the number of a character is one, by the comparisons that the built-in module makes.
abbrev BothLt : Ordering → Ordering → Type 0
BothLt Ordering.lt o = IsLt o
BothLt Ordering.eq _ = ⊥
BothLt Ordering.gt _ = ⊥

abbrev LtOrBothLt : Ordering → Ordering → Ordering → Type 0
LtOrBothLt Ordering.lt _ _ = Unit
LtOrBothLt Ordering.eq o p = BothLt o p
LtOrBothLt Ordering.gt o p = BothLt o p

both_cases : (o p : Ordering) → BothLt o p → (o ≡ Ordering.lt) × (p ≡ Ordering.lt)
both_cases Ordering.lt Ordering.lt h = (refl, refl)
both_cases Ordering.lt Ordering.eq h = absurd h
both_cases Ordering.lt Ordering.gt h = absurd h
both_cases Ordering.eq _ h = absurd h
both_cases Ordering.gt _ h = absurd h

scalar_cases :
    (o p q : Ordering)
    → LtOrBothLt o p q
    → (o ≡ Ordering.lt) ⊎ ((p ≡ Ordering.lt) × (q ≡ Ordering.lt))
scalar_cases Ordering.lt p q h = inl refl
scalar_cases Ordering.eq p q h = inr (both_cases p q h)
scalar_cases Ordering.gt p q h = inr (both_cases p q h)

code-Scalar : (c : Char) → Scalar (code c)
code-Scalar (char n h) =
    let below : (compare n 55296 ≡ Ordering.lt)
        ⊎ ((compare 57343 n ≡ Ordering.lt) × (compare n 1114112 ≡ Ordering.lt)) =
      scalar_cases (compare n 55296) (compare 57343 n) (compare n 1114112) h in
    ground arith

utf8_bytes-small : (c : ℕ) → Scalar c → All (λ b. b < 256) (utf8_bytes c)
utf8_bytes-small c h = ground arith

with_bytes : List ℕ → List Piece → List Piece
with_bytes [] ps = ps
with_bytes (b ∷ bs) ps = byte b ∷ with_bytes bs ps

-- What the text is encoded to, before it is written out.
parts : String → List Piece
unfolding with_bytes
parts String.[] = []
parts (String.◌∷◌ c s) =
    let rest = parts s in
    if is_unreserved (code c) then plain (code c) ∷ rest else with_bytes (utf8_bytes (code c)) rest

pieces-percents :
    (bs : List ℕ) (rest : String) (ps : List Piece)
    → All (λ b. b < 256) bs
    → pieces rest ≡ some ps
    → pieces (percents bs rest) ≡ some (with_bytes bs ps)
unfolding with_bytes
pieces-percents [] rest ps h e = e
pieces-percents (b ∷ bs) rest ps (small, h) e =
    pieces-percent b (percents bs rest) small ∙ rw (pieces-percents bs rest ps h e)

pieces-encode_uri_component : (s : String) → pieces (encode_uri_component s) ≡ some (parts s)
unfolding encode_uri_component parts
pieces-encode_uri_component String.[] = unfold pieces in refl
pieces-encode_uri_component (String.◌∷◌ c s) = elim (Bool-cases (is_unreserved (code c))) [
  | inl safe ↦
      rw safe (pieces-plain c (encode_uri_component s) safe ∙ rw (pieces-encode_uri_component s))
  | inr other ↦ rw other (
      pieces-percents (utf8_bytes (code c)) (encode_uri_component s) (parts s)
        (utf8_bytes-small (code c) (code-Scalar c)) (pieces-encode_uri_component s))
]

utf8_codes-bytes :
    (c : ℕ) (ps : List Piece)
    → Scalar c
    → utf8_codes 0 0 0 (with_bytes (utf8_bytes c) ps) ≡ add_code c (utf8_codes 0 0 0 ps)
unfolding utf8_codes with_bytes
utf8_codes-bytes c ps h = ground arith

utf8_codes-plain :
    (c : ℕ) (ps : List Piece) → utf8_codes 0 0 0 (plain c ∷ ps) ≡ add_code c (utf8_codes 0 0 0 ps)
unfolding utf8_codes
utf8_codes-plain c ps = refl

utf8_codes-parts : (s : String) → utf8_codes 0 0 0 (parts s) ≡ some (codes s)
unfolding parts
utf8_codes-parts String.[] = unfold utf8_codes in refl
utf8_codes-parts (String.◌∷◌ c s) = elim (Bool-cases (is_unreserved (code c))) [
  | inl safe ↦ rw safe (utf8_codes-plain (code c) (parts s) ∙ rw (utf8_codes-parts s))
  | inr other ↦
      rw other (utf8_codes-bytes (code c) (parts s) (code-Scalar c) ∙ rw (utf8_codes-parts s))
]

-- Every text that was encoded is decoded to its own code points.
pub decode-encode_uri_component :
    (s : String) → decode_uri_component (encode_uri_component s) ≡ some (codes s)
unfolding decode_uri_component
decode-encode_uri_component s =
    rw (pieces-encode_uri_component s, decode_uri_component) (utf8_codes-parts s)

-- An unreserved character, or the `%` of an escape.
abbrev pub is_inert : ℕ → Bool
is_inert c = is_unreserved c || c == b'%'

inert_digits : holds_below (λ n. is_inert (code (hex_digit n))) 16 ≡ true
unfolding hex_digit is_unreserved
inert_digits = refl

all_codes-percent :
    (b : ℕ) (rest : String)
    → b < 256
    → all_codes is_inert rest ≡ true
    → all_codes is_inert (percent b rest) ≡ true
all_codes-percent b rest small h =
    rw
      (
        holds_below_at (λ n. is_inert (code (hex_digit n))) 16 (b / 16) inert_digits (omega arith),
        holds_below_at (λ n. is_inert (code (hex_digit n))) 16 (b % 16) inert_digits (omega arith),
        h,
      )
      (unfold is_unreserved in refl)

all_codes-percents :
    (bs : List ℕ) (rest : String)
    → All (λ b. b < 256) bs
    → all_codes is_inert rest ≡ true
    → all_codes is_inert (percents bs rest) ≡ true
all_codes-percents [] rest small h = h
all_codes-percents (b ∷ bs) rest (one, small) h =
    all_codes-percent b (percents bs rest) one (all_codes-percents bs rest small h)

-- What is encoded has no character that means anything in an address.
pub all_codes-encode_uri_component :
    (s : String) → all_codes is_inert (encode_uri_component s) ≡ true
unfolding encode_uri_component
all_codes-encode_uri_component String.[] = refl
all_codes-encode_uri_component (String.◌∷◌ c s) = elim (Bool-cases (is_unreserved (code c))) [
  | inl safe ↦ rw (safe, safe) (all_codes-encode_uri_component s)
  | inr other ↦ rw other (
      all_codes-percents (utf8_bytes (code c)) (encode_uri_component s)
        (utf8_bytes-small (code c) (code-Scalar c)) (all_codes-encode_uri_component s))
]
