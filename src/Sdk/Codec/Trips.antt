-- ===== src/Sdk/Codec/Trips.antt =====
-- Which properties survive the way to the server and back, and that an object does if each of its
-- properties does.
use ragbag.Common.{
  ◌≡◌, refl, Bool, true, not, ◌&&◌, String, false, Option, none, some, List, [], ◌∷◌, ◌===◌,
  includes, IsDistinct, ap, ◌∙◌, All, arith, Bool-cases, inl, inr, eq_iff,
}
use ragbag.Sdk.Value.{
  Value, obj, Fields, end, field, Dates, lookup_field, prop, keys, wire, wire_fields,
  lookup-wire_fields,
}
use ragbag.Sdk.Codec.{◌>>=◌, fields_of, object, RoundTrips}

-- A property of a model: its name in the client and in the JSON object, the forms by which it is
-- written and read, and its value.
pub record Row : Type 0 where
  pub key : String
  pub json_key : String
  pub to : Value → Option Value
  pub from : Value → Option Value
  pub value : Value

abbrev pub model_fields : List Row → Fields
model_fields [] = end
model_fields (r ∷ rs) = field r.key r.value (model_fields rs)

abbrev pub to_properties : List Row → List (String × Option Value)
to_properties [] = []
to_properties (r ∷ rs) = (r.json_key, r.to r.value) ∷ to_properties rs

abbrev pub from_properties : Value → List Row → List (String × Option Value)
from_properties w [] = []
from_properties w (r ∷ rs) = (r.key, r.from (prop w r.json_key)) ∷ from_properties w rs

abbrev pub json_keys : List Row → List String
json_keys [] = []
json_keys (r ∷ rs) = r.json_key ∷ json_keys rs

-- A test of names that computes.
abbrev pub all_distinct : List String → Bool
all_distinct [] = true
all_distinct (k ∷ ks) = not (includes ks k) && all_distinct ks

IsDistinct-all_distinct : (ks : List String) → all_distinct ks ≡ true → IsDistinct ks
IsDistinct-all_distinct [] h = tt
IsDistinct-all_distinct (k ∷ ks) h = (ground arith, IsDistinct-all_distinct ks (ground arith))

-- The row of a property.
abbrev pub row : String → String → (Value → Option Value) → (Value → Option Value) → Value → Row
row key json_key to from value = record {
  key = key;
  json_key = json_key;
  to = to;
  from = from;
  value = value;
}

module _ (dates : Dates) where
  abbrev pub RowTrips : Row → Type 0
  RowTrips r = RoundTrips dates r.to r.from r.value

  abbrev json_fields : (rs : List Row) → All RowTrips rs → Fields
  json_fields [] t = end
  json_fields (r ∷ rs) (t, ts) = field r.json_key t.0 (json_fields rs ts)

  keys-json_fields : (rs : List Row) (t : All RowTrips rs) → keys (json_fields rs t) ≡ json_keys rs
  keys-json_fields [] t = refl
  keys-json_fields (r ∷ rs) (t, ts) = ap (λ ks. r.json_key ∷ ks) (keys-json_fields rs ts)

  abbrev Agrees : Fields → (rs : List Row) → All RowTrips rs → Type 0
  Agrees fs [] t = Unit {0}
  Agrees fs (r ∷ rs) (t, ts) = (lookup_field fs r.json_key ≡ t.0) × Agrees fs rs ts

  Agrees-field :
      (fs : Fields) (k : String) (v : Value) (rs : List Row) (t : All RowTrips rs)
      → includes (json_keys rs) k ≡ false
      → Agrees fs rs t
      → Agrees (field k v fs) rs t
  Agrees-field fs k v [] t new h = tt
  Agrees-field fs k v (r ∷ rs) (t, ts) new (e, h) = (
    elim (Bool-cases (k === r.json_key)) [
      | inl same ↦ ground (arith, eq_iff k r.json_key, eq_iff r.json_key k)
      | inr other ↦ rw other e
    ],
    Agrees-field fs k v rs ts (ground arith) h,
  )

  Agrees-json_fields :
      (rs : List Row) (t : All RowTrips rs)
      → IsDistinct (json_keys rs)
      → Agrees (json_fields rs t) rs t
  Agrees-json_fields [] t d = tt
  Agrees-json_fields (r ∷ rs) (t, ts) (new, d) = (
    ground (arith, eq_iff r.json_key r.json_key),
    Agrees-field (json_fields rs ts) r.json_key t.0 rs ts new (Agrees-json_fields rs ts d),
  )

  fields_of-cons :
      (k : String) (o : Option Value) (ps : List (String × Option Value)) (v : Value) (fs : Fields)
      → o ≡ some v
      → fields_of ps ≡ some fs
      → fields_of ((k, o) ∷ ps) ≡ some (field k v fs)
  fields_of-cons k none ps v fs e h = cc
  fields_of-cons k (some w) ps v fs e h = rw h (cc)

  fields_of-to :
      (rs : List Row) (t : All RowTrips rs) → fields_of (to_properties rs) ≡ some (json_fields rs t)
  fields_of-to [] t = refl
  fields_of-to (r ∷ rs) (t, ts) =
      fields_of-cons r.json_key (r.to r.value) (to_properties rs) t.0 (json_fields rs ts) t.1
        (fields_of-to rs ts)

  fields_of-from :
      (total : Fields) (rs : List Row) (t : All RowTrips rs)
      → IsDistinct (keys total)
      → Agrees total rs t
      → fields_of (from_properties (obj (wire_fields dates total)) rs) ≡ some (model_fields rs)
  fields_of-from total [] t d a = refl
  fields_of-from total (r ∷ rs) (t, ts) d (e, a) =
      fields_of-cons r.key (r.from (lookup_field (wire_fields dates total) r.json_key))
        (from_properties (obj (wire_fields dates total)) rs) r.value (model_fields rs)
        (ap r.from (lookup-wire_fields dates total r.json_key d ∙ ap (wire dates) e) ∙ t.2)
        (fields_of-from total rs ts d a)

  -- An object whose properties have different names arrives whole if each property does.
  pub object-trips :
      (rs : List Row)
      → all_distinct (json_keys rs) ≡ true
      → All RowTrips rs
      → (j : Fields) × (object (to_properties rs) ≡ some (obj j))
        × (object (from_properties (obj (wire_fields dates j)) rs) ≡ some (obj (model_fields rs)))
  object-trips rs names t =
      let d = IsDistinct-all_distinct (json_keys rs) names in
      (
        json_fields rs t,
        ap (λ o. o >>= λ fs. some (obj fs)) (fields_of-to rs t),
        ap (λ o. o >>= λ fs. some (obj fs))
            (fields_of-from (json_fields rs t) rs t (rw (keys-json_fields rs t) d)
              (Agrees-json_fields rs t d)),
      )

-- A property with its proof, and the object of a list of them.
pub record Trip (dates : Dates) : Type 0 where
  pub property : Row
  pub arrives : RowTrips dates property

module _ {dates : Dates} where
  abbrev pub rows_of : List (Trip dates) → List Row
  rows_of [] = []
  rows_of (t ∷ ts) = t.property ∷ rows_of ts

  proofs_of : (ts : List (Trip dates)) → All (RowTrips dates) (rows_of ts)
  proofs_of [] = tt
  proofs_of (t ∷ ts) = (t.arrives, proofs_of ts)

  -- An object whose properties have different names arrives whole.
  pub model-trips :
      (ts : List (Trip dates))
      → all_distinct (json_keys (rows_of ts)) ≡ true
      → (j : Fields) × (object (to_properties (rows_of ts)) ≡ some (obj j))
        × (object (from_properties (obj (wire_fields dates j)) (rows_of ts))
            ≡ some (obj (model_fields (rows_of ts))))
  model-trips ts names = object-trips dates (rows_of ts) names (proofs_of ts)
