-- ===== src/Sdk/Codec/Forms.antt =====
-- The properties that the models have, by their type: each survives the way to the server and back.
use ragbag.Common.{ℕ, ◌≡◌, refl, String, Bool, Option, none, some, List, [], ◌∷◌, ap, ◌∙◌}
use ragbag.Sdk.Value.{
  Value, undefined, bool, num, text, date, arr, obj, Items, nil, cons, Fields, end, field, Dates,
  wire, wire_items, wire_fields,
}
use ragbag.Sdk.Codec.{
  ◌>>=◌, parse_date_time, serialize_date_time, optional, nullable, map_items, map_array,
  or_undefined, array_of, RoundTrips, ModelTrips,
}

-- `K: value[K]`, `K: json[K]`
abbrev pub same : Value → Option Value
same v = some v

-- A list of texts as an array.
abbrev pub texts : List String → Value
texts ss = arr (array_of text ss)

-- A date, given by its time value.
abbrev pub instant : ℕ → Value
instant t = date (some t)

pub map_items-cons :
    (f : Value → Option Value) (v w : Value) (vs ws : Items)
    → f v ≡ some w
    → map_items f vs ≡ some ws
    → map_items f (cons v vs) ≡ some (cons w ws)
map_items-cons f v w vs ws e h = rw (e, h)

module _ (dates : Dates) where
  pub text-trips : (s : String) → RoundTrips dates same same (text s)
  unfolding wire
  text-trips s = (text s, refl, refl)

  pub num-trips : (n : ℕ) → RoundTrips dates same same (num n)
  unfolding wire
  num-trips n = (num n, refl, refl)

  pub bool-trips : (b : Bool) → RoundTrips dates same same (bool b)
  unfolding wire
  bool-trips b = (bool b, refl, refl)

  wire-texts : (ss : List String) → wire_items dates (array_of text ss) ≡ array_of text ss
  unfolding wire
  wire-texts [] = refl
  wire-texts (s ∷ ss) = ap (cons (text s)) (wire-texts ss)

  pub texts-trips : (ss : List String) → RoundTrips dates same same (texts ss)
  unfolding wire
  texts-trips ss = (texts ss, refl, ap (λ vs. some (arr vs)) (wire-texts ss))

  pub optional_text-trips :
      (o : Option String) → RoundTrips dates same (optional same) (or_undefined text o)
  unfolding wire
  optional_text-trips none = (undefined, refl, refl)
  optional_text-trips (some s) = (text s, refl, refl)

  pub optional_num-trips :
      (o : Option ℕ) → RoundTrips dates same (optional same) (or_undefined num o)
  unfolding wire
  optional_num-trips none = (undefined, refl, refl)
  optional_num-trips (some n) = (num n, refl, refl)

  pub optional_bool-trips :
      (o : Option Bool) → RoundTrips dates same (optional same) (or_undefined bool o)
  unfolding wire
  optional_bool-trips none = (undefined, refl, refl)
  optional_bool-trips (some b) = (bool b, refl, refl)

  pub optional-texts-trips :
      (o : Option (List String)) → RoundTrips dates same (optional same) (or_undefined texts o)
  unfolding wire
  optional-texts-trips none = (undefined, refl, refl)
  optional-texts-trips (some ss) = (texts ss, refl, ap (λ vs. some (arr vs)) (wire-texts ss))

  pub date-trips :
      (t : ℕ)
      → RoundTrips dates
          (nullable (serialize_date_time dates))
          (nullable (parse_date_time dates))
          (instant t)
  unfolding wire serialize_date_time parse_date_time
  date-trips t = (text (dates.iso t), refl, ap (λ o. some (date o)) (dates.parse-iso t))

  pub optional_date-trips :
      (o : Option ℕ)
      → RoundTrips dates
          (nullable (serialize_date_time dates))
          (optional (parse_date_time dates))
          (or_undefined instant o)
  unfolding wire serialize_date_time parse_date_time
  optional_date-trips none = (undefined, refl, refl)
  optional_date-trips (some t) =
      (text (dates.iso t), refl, ap (λ o. some (date o)) (dates.parse-iso t))

  -- Models, alone and in arrays.
  module _ {A : Type 0} (value : A → Value) (to from : Value → Option Value)
      (trips : (a : A) → ModelTrips dates to from (value a)) where
    pub model-trips : (a : A) → RoundTrips dates to from (value a)
    model-trips a = let (j, e, r) = trips a in (obj j, e, r)

    pub optional_model-trips :
        to undefined ≡ some undefined
        → (o : Option A) → RoundTrips dates to (optional from) (or_undefined value o)
    unfolding wire
    optional_model-trips guard none = (undefined, guard, refl)
    optional_model-trips guard (some a) = let (j, e, r) = trips a in (obj j, e, r)

    map_items-trips :
        (xs : List A)
        → (js : Items) × (map_items to (array_of value xs) ≡ some js)
          × (map_items from (wire_items dates js) ≡ some (array_of value xs))
    unfolding wire
    map_items-trips [] = (nil, refl, refl)
    map_items-trips (x ∷ xs) =
        let (j, e, r) = trips x in
        let (js, es, rs) = map_items-trips xs in
        (
          cons (obj j) js,
          map_items-cons to (value x) (obj j) (array_of value xs) js e es,
          map_items-cons from (obj (wire_fields dates j)) (value x) (wire_items dates js)
              (array_of value xs) r rs,
        )

    pub models-trips :
        (xs : List A) → RoundTrips dates (map_array to) (map_array from) (arr (array_of value xs))
    unfolding wire
    models-trips xs =
        let (js, e, r) = map_items-trips xs in
        (arr js, ap (λ o. o >>= λ vs. some (arr vs)) e, ap (λ o. o >>= λ vs. some (arr vs)) r)

    pub optional_models-trips :
        (o : Option (List A))
        → RoundTrips dates
            (optional (map_array to))
            (optional (map_array from))
            (or_undefined (λ xs. arr (array_of value xs)) o)
    unfolding wire
    optional_models-trips none = (undefined, refl, refl)
    optional_models-trips (some xs) =
        let (js, e, r) = map_items-trips xs in
        (arr js, ap (λ o. o >>= λ vs. some (arr vs)) e, ap (λ o. o >>= λ vs. some (arr vs)) r)

-- `{ [key: string]: number }`
abbrev pub num_fields : List (String × ℕ) → Fields
num_fields [] = end
num_fields ((k, n) ∷ ps) = field k (num n) (num_fields ps)

abbrev pub num_map : List (String × ℕ) → Value
num_map ps = obj (num_fields ps)

module _ (dates : Dates) where
  wire-num_fields : (ps : List (String × ℕ)) → wire_fields dates (num_fields ps) ≡ num_fields ps
  unfolding wire
  wire-num_fields [] = refl
  wire-num_fields ((k, n) ∷ ps) = ap (field k (num n)) (wire-num_fields ps)

  pub num_map-trips : (ps : List (String × ℕ)) → RoundTrips dates same same (num_map ps)
  unfolding wire
  num_map-trips ps = (num_map ps, refl, ap (λ fs. some (obj fs)) (wire-num_fields ps))

  -- An array of texts that stand for values of an enumeration.
  module _ {E : Type 0} (name : E → String) where
    map_items-texts :
        (xs : List E)
        → map_items same (array_of (λ x. text (name x)) xs)
          ≡ some (array_of (λ x. text (name x)) xs)
    map_items-texts [] = refl
    map_items-texts (x ∷ xs) = rw (map_items-texts xs)

    wire-names :
        (xs : List E)
        → wire_items dates (array_of (λ x. text (name x)) xs) ≡ array_of (λ x. text (name x)) xs
    unfolding wire
    wire-names [] = refl
    wire-names (x ∷ xs) = ap (cons (text (name x))) (wire-names xs)

    pub optional_texts_mapped-trips :
        (o : Option (List E))
        → RoundTrips dates
            (optional (map_array same))
            (optional (map_array same))
            (or_undefined (λ xs. arr (array_of (λ x. text (name x)) xs)) o)
    unfolding wire
    optional_texts_mapped-trips none = (undefined, refl, refl)
    optional_texts_mapped-trips (some xs) = (
      arr (array_of (λ x. text (name x)) xs),
      ap (λ o. o >>= λ vs. some (arr vs)) (map_items-texts xs),
      ap (λ vs. map_items same vs >>= λ ws. some (arr ws)) (wire-names xs)
          ∙ ap (λ o. o >>= λ vs. some (arr vs)) (map_items-texts xs),
    )
