-- ===== src/Sdk/Models/CollectionDto/Nesting.antt =====
-- The fuel of the conversions of a collection: the nesting of the value they are given is enough.
use ragbag.Common.{
  ℕ, ◌≢◌, sym, subst, zero, suc, Bool, ◌⊎◌, inl, inr, ◌≡◌, ◌≤◌, ◌<◌, refl, ◌∙◌, List, [], ◌∷◌, All,
  none, String, Option, some, ap, max, min, arith, Bool-cases, ◌===◌, if◌then◌else◌, true, false,
}
use ragbag.Sdk.Value.{
  Value, undefined, null, bool, num, text, date, obj, arr, Fields, field, end, Items, cons, nil,
  prop, lookup_field, is_nullish,
}
use ragbag.Sdk.Codec.{map_items, map_array, fields_of, object, optional, ◌>>=◌}
use ragbag.Sdk.Codec.Forms.{same}
use ragbag.Sdk.Models.CollectionDto.{collection_dto_from_json}

-- The levels of arrays and objects.
unfoldable mutual
  pub nesting : Value → ℕ
  nesting (obj fs) = suc (nesting_fields fs)
  nesting (arr vs) = suc (nesting_items vs)
  nesting _ = 0

  pub nesting_fields : Fields → ℕ
  nesting_fields end = 0
  nesting_fields (field k v fs) = max (nesting v) (nesting_fields fs)

  pub nesting_items : Items → ℕ
  nesting_items nil = 0
  nesting_items (cons v vs) = max (nesting v) (nesting_items vs)

-- `CollectionDtoFromJSON`, which calls itself as deep as the value goes.
unfoldable pub read_collection : Value → Option Value
unfolding collection_dto_from_json nesting
read_collection v = collection_dto_from_json (suc (nesting v)) v

nesting_choice :
    (b : Bool) (v w : Value) (n : ℕ)
    → nesting v ≤ n
    → nesting w ≤ n
    → nesting (if b then v else w) ≤ n
nesting_choice true v w n h k = h
nesting_choice false v w n h k = k

lookup-nesting : (fs : Fields) (k : String) → nesting (lookup_field fs k) ≤ nesting_fields fs
unfolding nesting
lookup-nesting end k = omega arith
lookup-nesting (field own v fs) k =
    let later = lookup-nesting fs k in
    nesting_choice (own === k) v (lookup_field fs k) (nesting_fields (field own v fs)) (omega arith)
      (omega arith)

-- The children of a value that is not null are less nested than the value is.
children-nesting :
    (v : Value) (k : String) (n : ℕ)
    → nesting v < suc n
    → (nesting (prop v k) < n) ⊎ (prop v k ≡ undefined)
unfolding nesting
children-nesting undefined k n h = inr refl
children-nesting null k n h = inr refl
children-nesting (bool b) k n h = inr refl
children-nesting (num m) k n h = inr refl
children-nesting (text s) k n h = inr refl
children-nesting (date d) k n h = inr refl
children-nesting (arr vs) k n h = inr refl
children-nesting (obj fs) k n h = let later = lookup-nesting fs k in inl (omega arith)

map_items-same :
    (n : ℕ) (f g : Value → Option Value) (vs : Items)
    → ((v : Value) → nesting v < n → f v ≡ g v)
    → nesting_items vs < n
    → map_items f vs ≡ map_items g vs
unfolding nesting
map_items-same n f g nil agree h = refl
map_items-same n f g (cons v vs) agree h =
    rw (agree v (omega arith), map_items-same n f g vs agree (omega arith)) refl

optional-same :
    (n : ℕ) (f g : Value → Option Value) (v : Value)
    → ((v : Value) → nesting v < n → f v ≡ g v)
    → (nesting v < n) ⊎ (v ≡ undefined)
    → optional (map_array f) v ≡ optional (map_array g) v
unfolding nesting
optional-same n f g (arr vs) agree (inl h) =
    ap (λ o. o >>= λ ws. some (arr ws)) (map_items-same n f g vs agree (omega arith))
optional-same n f g (arr vs) agree (inr e) = cc
optional-same n f g undefined agree h = refl
optional-same n f g null agree h = refl
optional-same n f g (bool b) agree h = refl
optional-same n f g (num m) agree h = refl
optional-same n f g (text s) agree h = refl
optional-same n f g (date d) agree h = refl
optional-same n f g (obj fs) agree h = refl

fuel_enough :
    (v : Value) (m n : ℕ)
    → nesting v < m
    → nesting v < n
    → collection_dto_from_json m v ≡ collection_dto_from_json n v
unfolding collection_dto_from_json
fuel_enough v zero n h k = absurd (omega arith)
fuel_enough v (suc m) zero h k = absurd (omega arith)
fuel_enough v (suc m) (suc n) h k = elim (Bool-cases (is_nullish v)) [
  | inl e ↦ rw e refl
  | inr e ↦
      rw
        (optional-same (min m n) (λ w. collection_dto_from_json m w)
          (λ w. collection_dto_from_json n w) (prop v "children")
          (λ w l. fuel_enough w m n (omega arith) (omega arith))
          (children-nesting v "children" (min m n) (omega arith)))
        refl
]

-- A value that `CollectionDtoFromJSON` reads without throwing: at every level the children are missing or an
-- array, since `map` is called on them.
mutual
  pub data IsReadable : Value → Type 0 where
    nullish : (v : Value) → is_nullish v ≡ true → IsReadable v
    childless : (v : Value) → is_nullish (prop v "children") ≡ true → IsReadable v
    parent : (v : Value) (vs : Items) → prop v "children" ≡ arr vs → AreReadable vs → IsReadable v

  pub data AreReadable : Items → Type 0 where
    none_left : AreReadable nil
    one_more : (v : Value) (vs : Items) → IsReadable v → AreReadable vs → AreReadable (cons v vs)

abbrev Gives : Option Value → Type 0
Gives found = (out : Value) × (found ≡ some out)

abbrev GivesItems : Option Items → Type 0
GivesItems found = (out : Items) × (found ≡ some out)

abbrev GivesFields : Option Fields → Type 0
GivesFields found = (out : Fields) × (found ≡ some out)

fields_give :
    (ps : List (String × Option Value)) → All (λ p. Gives p.1) ps → GivesFields (fields_of ps)
fields_give [] given = (end, refl)
fields_give ((k, none) ∷ ps) ((v, e), given) = cc
fields_give ((k, some w) ∷ ps) ((v, e), given) =
    let (out, es) = fields_give ps given in (field k w out, rw es refl)

object-Gives : (ps : List (String × Option Value)) → All (λ p. Gives p.1) ps → Gives (object ps)
object-Gives ps given = let (out, e) = fields_give ps given in (obj out, rw e refl)

optional-Gives : (v : Value) → Gives (optional same v)
optional-Gives v = elim (Bool-cases (is_nullish v)) [
  | inl missing ↦ (undefined, rw missing refl)
  | inr there ↦ (v, rw there refl)
]

-- The object that is built for a collection, with its children done.
abbrev literal : Value → Option Value → List (String × Option Value)
literal json children =
    ("id", same (prop json "id"))
    ∷ ("name", same (prop json "name"))
    ∷ ("description", optional same (prop json "description"))
    ∷ ("parentId", optional same (prop json "parentId"))
    ∷ ("restricted", optional same (prop json "restricted"))
    ∷ ("children", children)
    ∷ ("bookmarkCount", optional same (prop json "bookmarkCount"))
    ∷ ("newCount", optional same (prop json "newCount"))
    ∷ ("shared", optional same (prop json "shared"))
    ∷ ("locked", optional same (prop json "locked"))
    ∷ []

literal-Gives :
    (v : Value) (children : Option Value) → Gives children → Gives (object (literal v children))
literal-Gives v children given = object-Gives (literal v children) (
  (prop v "id", refl),
  (
    (prop v "name", refl),
    (
      optional-Gives (prop v "description"),
      (
        optional-Gives (prop v "parentId"),
        (
          optional-Gives (prop v "restricted"),
          (
            given,
            (
              optional-Gives (prop v "bookmarkCount"),
              (
                optional-Gives (prop v "newCount"),
                (optional-Gives (prop v "shared"), (optional-Gives (prop v "locked"), tt)),
              ),
            ),
          ),
        ),
      ),
    ),
  ),
)

nullish-Gives :
    (fuel : ℕ) (v : Value) → is_nullish v ≡ true → Gives (collection_dto_from_json (suc fuel) v)
unfolding collection_dto_from_json
nullish-Gives fuel v e = (v, rw e refl)

node-Gives :
    (fuel : ℕ) (v : Value)
    → Gives (optional (map_array (λ w. collection_dto_from_json fuel w)) (prop v "children"))
    → Gives (collection_dto_from_json (suc fuel) v)
unfolding collection_dto_from_json
node-Gives fuel v given = elim (Bool-cases (is_nullish v)) [
  | inl missing ↦ (v, rw missing refl)
  | inr there ↦ rw there (literal-Gives v _ given)
]

array_defined : (vs : Items) → arr vs ≢ undefined
array_defined vs e = cc

array_items :
    (v : Value) (vs : Items) (n : ℕ)
    → prop v "children" ≡ arr vs
    → nesting v < suc n
    → nesting_items vs < n
unfolding nesting
array_items v vs n e h = elim (children-nesting v "children" n h) [
  | inl less ↦ below (subst (λ w. nesting w < n) e less)
  | inr missing ↦ absurd (array_defined vs (sym e ∙ missing))
]
  where
    below : suc (nesting_items vs) < n → nesting_items vs < n
    below less = omega arith

array-Gives :
    (f : Value → Option Value) (v : Value) (vs : Items)
    → v ≡ arr vs
    → GivesItems (map_items f vs)
    → Gives (optional (map_array f) v)
array-Gives f v vs e (outs, es) = rw (e, es) (arr outs, refl)

missing-Gives : (f : Value → Option Value) (v : Value) → is_nullish v ≡ true → Gives (optional f v)
missing-Gives f v e = rw e (undefined, refl)

mutual
  unfolding nesting

  reads :
      (v : Value) (fuel : ℕ)
      → IsReadable v
      → nesting v < fuel
      → Gives (collection_dto_from_json fuel v)
  reads v zero r h = absurd (omega arith)
  reads v (suc fuel) (nullish _ e) h = nullish-Gives fuel v e
  reads v (suc fuel) (childless _ e) h =
      node-Gives fuel v
        (missing-Gives (map_array (λ w. collection_dto_from_json fuel w)) (prop v "children") e)
  reads v (suc fuel) (parent _ vs e rs) h = node-Gives fuel v (
      array-Gives (λ w. collection_dto_from_json fuel w) (prop v "children") vs e
        (reads_items vs fuel rs (array_items v vs fuel e h)))

  reads_items :
      (vs : Items) (fuel : ℕ)
      → AreReadable vs
      → nesting_items vs < fuel
      → GivesItems (map_items (λ w. collection_dto_from_json fuel w) vs)
  reads_items nil fuel r h = (nil, refl)
  reads_items (cons v vs) fuel (one_more _ _ r rs) h =
      let (out, e) = reads v fuel r (omega arith) in
      let (outs, es) = reads_items vs fuel rs (omega arith) in (cons out outs, rw (e, es) refl)

-- Reading a collection ends, with a value, on each value in which at every level the children are missing or an
-- array: with any fuel beyond its levels there is a result, and it is the same for all of them.
pub read_collection-ends :
    (fuel : ℕ) (v : Value)
    → nesting v < fuel
    → IsReadable v
    → (out : Value) × (collection_dto_from_json fuel v ≡ some out) × (read_collection v ≡ some out)
unfolding read_collection
read_collection-ends fuel v h r =
    let (out, e) = reads v fuel r h in
    (out, e, fuel_enough v (suc (nesting v)) fuel (omega arith) h ∙ e)
