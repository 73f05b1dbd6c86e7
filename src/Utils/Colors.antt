-- ===== src/Utils/Colors.antt =====
-- ui/v1/src/lib/utils/format.ts: `colorFor` and `shownName`.
--
-- The hash is a signed number of 32 bits; it stands here as the number from 0 to 2^32 - 1 with the same bits, so
-- that `| 0` is the remainder modulo 2^32.
use Prim.Native.Char.{Char, code}
use ragbag.Common.{
  ℕ, zero, suc, ◌+◌, ◌-◌, ◌*◌, ◌/◌, ◌%◌, ◌<◌, ◌≤◌, ◌≡◌, refl, ap, ◌∙◌, String, Option, some, List,
  [], ◌∷◌, if◌then◌else◌, ltb, truthy, nullish_or, arith, get_elem?, In, inl, inr, length,
}

abbrev pub avatar_colors : List String
avatar_colors =
    "bg-indigo-500" ∷ "bg-emerald-500" ∷ "bg-amber-500" ∷ "bg-rose-500" ∷ "bg-sky-500"
    ∷ "bg-violet-500" ∷ "bg-teal-500" ∷ "bg-orange-500" ∷ []

-- `char.charCodeAt(0)`: of a character beyond 16 bits, the first surrogate.
abbrev pub char_code_at_0 : Char → ℕ
char_code_at_0 c = if ltb (code c) 0x1_0000 then code c else 0xd800 + (code c - 0x1_0000) / 1024

-- One turn of the loop, with its `| 0`.
abbrev pub mix : ℕ → Char → ℕ
mix hash c = (hash * 31 + char_code_at_0 c) % 4294967296

unfoldable pub hash_from : ℕ → String → ℕ
hash_from hash String.[] = hash
hash_from hash (String.◌∷◌ c s) = hash_from (mix hash c) s

-- `Math.abs` of the signed number with these bits.
abbrev pub magnitude : ℕ → ℕ
magnitude bits = if ltb bits 2147483648 then bits else 4294967296 - bits

unfoldable pub color_for : String → Option String
unfolding hash_from
color_for name = get_elem? avatar_colors (magnitude (hash_from 0 name) % length avatar_colors)

-- `user.displayName || user.username`
abbrev pub shown_name : String → Option String → String
shown_name username display_name =
    if truthy display_name then nullish_or display_name "" else username

-- The hash without the cut to 32 bits.
unfoldable pub polynomial : ℕ → String → ℕ
polynomial hash String.[] = hash
polynomial hash (String.◌∷◌ c s) = polynomial (hash * 31 + char_code_at_0 c) s

mix_cut : (h : ℕ) (c : Char) → mix (h % 4294967296) c ≡ (h * 31 + char_code_at_0 c) % 4294967296
mix_cut h c = omega arith

hash_from_cut : (s : String) (h : ℕ) → hash_from (h % 4294967296) s ≡ polynomial h s % 4294967296
unfolding hash_from polynomial
hash_from_cut String.[] h = refl
hash_from_cut (String.◌∷◌ c s) h =
    ap (λ n. hash_from n s) (mix_cut h c) ∙ hash_from_cut s (h * 31 + char_code_at_0 c)

get_elem?-In :
    (xs : List String) (n : ℕ) → n < length xs → (x : String) × (get_elem? xs n ≡ some x) × In x xs
get_elem?-In [] n h = absurd (omega arith)
get_elem?-In (x ∷ xs) zero h = (x, refl, inl refl)
get_elem?-In (x ∷ xs) (suc n) h =
    let (y, e, found) = get_elem?-In xs n (omega arith) in (y, e, inr found)

-- Each name has a color, one of those listed. Its hash, cut to 32 bits in each turn of the loop, is the exact one
-- cut once; it fits 32 bits, its magnitude is at most 2^31, and it never leads out of the list.
pub color_for-In :
    (name : String)
    → (hash_from 0 name ≡ polynomial 0 name % 4294967296)
      × (hash_from 0 name < 4294967296)
      × (magnitude (hash_from 0 name) ≤ 2147483648)
      × ((color : String) × (color_for name ≡ some color) × In color avatar_colors)
unfolding color_for
color_for-In name =
    let exact : hash_from 0 name ≡ polynomial 0 name % 4294967296 = hash_from_cut name 0 in
    let small : hash_from 0 name < 4294967296 = omega (arith, exact) in
    (
      exact,
      small,
      ground arith,
      get_elem?-In avatar_colors (magnitude (hash_from 0 name) % 8) (omega arith),
    )
