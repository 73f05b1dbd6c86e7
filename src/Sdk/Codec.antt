-- ===== src/Sdk/Codec.antt =====
-- The forms that the generated `…FromJSON` and `…ToJSON` of ui/v1/src/lib/sdk/models are made of, with the
-- date functions of sdk/runtime.ts, and when a value survives the way to the server and back.
--
-- Every function returns `none` where the source throws.
pub mod Trips
pub mod Forms
pub mod Rows
use ragbag.Common.{
  ℕ, ◌≡◌, refl, String, Bool, true, false, Option, none, some, List, [], ◌∷◌, ◌===◌, if◌then◌else◌,
  includes, IsDistinct, ap, sym, ◌∙◌, map, All, arith, not,
}
use ragbag.Sdk.Value.{
  Value, undefined, null, bool, num, text, date, arr, obj, Items, nil, cons, Fields, end, field,
  Dates, is_nullish, is_undefined, lookup_field, prop, keys, wire, lookup-wire_fields,
}

-- A thrown error goes past what follows.
infixl 5 ◌>>=◌
abbrev pub ◌>>=◌ {ℓ} : {Done Next : Type ℓ} → Option Done → (Done → Option Next) → Option Next
done >>= next = elim done [ none ↦ none | some v ↦ next v ]

-- `parseDateTime`: `new Date(v)`; a number is a time value, what is neither a text, a number, null, a truth value,
-- a date nor an array is invalid. An array is read by its text: that is so here for one that holds a text alone,
-- the others are left out, since the API has no array in place of a date.
unfoldable pub parse_date_time : Dates → Value → Option Value
parse_date_time dates (text s) = some (date (dates.parse s))
parse_date_time dates (num n) = some (date (some n))
parse_date_time dates (date t) = some (date t)
parse_date_time dates null = some (date (some 0))
parse_date_time dates (bool true) = some (date (some 1))
parse_date_time dates (bool false) = some (date (some 0))
parse_date_time dates (arr (cons (text s) nil)) = some (date (dates.parse s))
parse_date_time dates _ = some (date none)

-- `serializeDateTime`: `toISOString` throws for an invalid date, and for what is no date.
unfoldable pub serialize_date_time : Dates → Value → Option Value
serialize_date_time dates (date (some t)) = some (text (dates.iso t))
serialize_date_time dates _ = none

-- `v == null ? undefined : f(v)` and `v == null ? v : f(v)`
abbrev pub optional : (Value → Option Value) → Value → Option Value
optional f v = if is_nullish v then some undefined else f v

abbrev pub nullable : (Value → Option Value) → Value → Option Value
nullable f v = if is_nullish v then some v else f v

abbrev pub map_items : (Value → Option Value) → Items → Option Items
map_items f nil = some nil
map_items f (cons v vs) = do w ← f v; ws ← map_items f vs; some (cons w ws)

-- `(v as Array<any>).map(f)`: what is no array has no `map`.
abbrev pub map_array : (Value → Option Value) → Value → Option Value
map_array f (arr vs) = do some (arr (← map_items f vs))
map_array f _ = none

-- An object literal: its properties are evaluated in turn.
abbrev pub fields_of : List (String × Option Value) → Option Fields
fields_of [] = some end
fields_of ((k, none) ∷ ps) = none
fields_of ((k, some v) ∷ ps) = do some (field k v (← fields_of ps))

abbrev pub object : List (String × Option Value) → Option Value
object ps = do some (obj (← fields_of ps))

-- `'k' in value && value['k'] !== undefined`
abbrev pub has_field : Value → String → Bool
has_field v k = not (is_undefined (prop v k))

-- What a value of an optional property is: its value, or undefined.
abbrev pub or_undefined {ℓ} : {A : Type ℓ} → (A → Value) → Option A → Value
or_undefined f none = undefined
or_undefined f (some a) = f a

abbrev pub array_of {ℓ} : {A : Type ℓ} → (A → Value) → List A → Items
array_of f [] = nil
array_of f (x ∷ xs) = cons (f x) (array_of f xs)

-- The value is serialised without an error, and parsing what arrives gives it back.
abbrev pub RoundTrips : Dates → (Value → Option Value) → (Value → Option Value) → Value → Type 0
RoundTrips dates to from v = (j : Value) × (to v ≡ some j) × (from (wire dates j) ≡ some v)

-- The same of a model, which is sent as an object.
abbrev pub ModelTrips : Dates → (Value → Option Value) → (Value → Option Value) → Value → Type 0
ModelTrips dates to from v =
    (j : Fields) × (to v ≡ some (obj j)) × (from (wire dates (obj j)) ≡ some v)
