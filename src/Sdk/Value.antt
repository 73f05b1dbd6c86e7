-- ===== src/Sdk/Value.antt =====
-- JavaScript values as the generated client (ui/v1/src/lib/sdk) handles them: property access, null tests,
-- and what `JSON.stringify` followed by `JSON.parse` makes of a value.
use ragbag.Common.{
  ℕ, ◌≡◌, refl, String, Bool, true, false, Option, none, some, List, [], ◌∷◌, ◌===◌, if◌then◌else◌,
  arith, eq_iff, Bool-cases, inl, inr, includes, IsDistinct, ◌∙◌,
}

-- Numbers are the natural ones, which is all that the API has; a `Date` is its time value, none for an
-- invalid one. A plain object is the list of its properties.
mutual
  pub data Value : Type 0 where
    undefined null : Value
    bool : Bool → Value
    num : ℕ → Value
    text : String → Value
    date : Option ℕ → Value
    obj : Fields → Value
    arr : Items → Value

  pub data Fields : Type 0 where
    field : String → Value → Fields → Fields
    end : Fields

  pub data Items : Type 0 where
    cons : Value → Items → Items
    nil : Items

-- `new Date(text)` and `toISOString`, whose calendar is the language's: what the client relies on is that
-- the text of an instant is read back as that instant.
pub record Dates : Type 0 where
  pub parse : String → Option ℕ
  pub iso : ℕ → String
  pub parse-iso : (t : ℕ) → parse (iso t) ≡ some t

-- `v == null`
abbrev pub is_nullish : Value → Bool
is_nullish undefined = true
is_nullish null = true
is_nullish _ = false

abbrev pub is_undefined : Value → Bool
is_undefined undefined = true
is_undefined _ = false

abbrev pub lookup_field : Fields → String → Value
lookup_field end k = undefined
lookup_field (field own v fs) k = if own === k then v else lookup_field fs k

-- `v[k]`, for a value that is not null; what is no plain object has no such property.
abbrev pub prop : Value → String → Value
prop (obj fs) k = lookup_field fs k
prop _ k = undefined

abbrev pub keys : Fields → List String
keys end = []
keys (field k v fs) = k ∷ keys fs

module _ (dates : Dates) where
  -- `toJSON` of a date: null if it is invalid.
  abbrev json_date : Option ℕ → Value
  json_date none = null
  json_date (some t) = text (dates.iso t)

  -- In an array undefined becomes null, in an object the property is left out.
  abbrev or_null : Value → Value
  or_null undefined = null
  or_null v = v

  abbrev add_field : String → Value → Fields → Fields
  add_field k undefined fs = fs
  add_field k v fs = field k v fs

  unfoldable mutual
    pub wire : Value → Value
    wire undefined = undefined
    wire null = null
    wire (bool b) = bool b
    wire (num n) = num n
    wire (text s) = text s
    wire (date t) = json_date t
    wire (arr vs) = arr (wire_items vs)
    wire (obj fs) = obj (wire_fields fs)

    pub wire_items : Items → Items
    wire_items nil = nil
    wire_items (cons v vs) = cons (or_null (wire v)) (wire_items vs)

    pub wire_fields : Fields → Fields
    wire_fields end = end
    wire_fields (field k v fs) = add_field k (wire v) (wire_fields fs)

  lookup-add_field :
      (j k : String) (v : Value) (fs : Fields)
      → (j === k ≡ true → lookup_field fs k ≡ undefined)
      → lookup_field (add_field j v fs) k ≡ (if j === k then v else lookup_field fs k)
  lookup-add_field j k undefined fs h = elim (Bool-cases (j === k)) [
    | inl e ↦ rw e (h e)
    | inr e ↦ rw e
  ]
  lookup-add_field j k null fs h = refl
  lookup-add_field j k (bool b) fs h = refl
  lookup-add_field j k (num n) fs h = refl
  lookup-add_field j k (text s) fs h = refl
  lookup-add_field j k (date t) fs h = refl
  lookup-add_field j k (arr vs) fs h = refl
  lookup-add_field j k (obj gs) fs h = refl

  lookup_absent :
      (fs : Fields) (k : String)
      → includes (keys fs) k ≡ false
      → lookup_field (wire_fields fs) k ≡ undefined
  unfolding wire
  lookup_absent end k h = refl
  lookup_absent (field j v fs) k h =
      lookup-add_field j k (wire v) (wire_fields fs) (λ e. lookup_absent fs k (ground arith))
      ∙ ground (arith, lookup_absent fs k)

  -- A property of the object that arrives is what its value becomes on the way.
  pub lookup-wire_fields :
      (fs : Fields) (k : String)
      → IsDistinct (keys fs)
      → lookup_field (wire_fields fs) k ≡ wire (lookup_field fs k)
  unfolding wire
  lookup-wire_fields end k d = refl
  lookup-wire_fields (field j v fs) k d =
      lookup-add_field j k (wire v) (wire_fields fs)
        (λ e. lookup_absent fs k (ground (arith, eq_iff j k)))
      ∙ elim (Bool-cases (j === k)) [ inl e ↦ rw e | inr e ↦ rw e (lookup-wire_fields fs k d.1) ]
