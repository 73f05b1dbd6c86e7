-- ===== src/Sdk/Models/CollectionDto.antt =====
-- ui/v1/src/lib/sdk/models/CollectionDto.ts: the one model that holds a list of itself.
--
-- The two conversions call themselves on the children. They recur on fuel, one for each level of the
-- tree; a tree that is not deeper than the fuel is converted whole.
pub mod Nesting
use ragbag.Common.{
  ℕ, zero, suc, ◌≡◌, ◌≤◌, refl, String, Bool, ◌&&◌, Option, none, some, List, [], ◌∷◌, ap,
  if◌then◌else◌, max, arith,
}
use ragbag.Sdk.Value.{
  Value, undefined, num, bool, text, arr, obj, Items, nil, cons, field, end, Dates, is_nullish,
  prop, wire, wire_items, wire_fields,
}
use ragbag.Sdk.Codec.{
  ◌>>=◌, optional, map_items, map_array, object, has_field, or_undefined, RoundTrips, ModelTrips,
}
use ragbag.Sdk.Codec.Trips.{Trip, model-trips}
use ragbag.Sdk.Codec.Forms.{same, map_items-cons}
use ragbag.Sdk.Codec.Rows.{
  trip, text_trip, optional_text_trip, optional_num_trip, optional_bool_trip,
}

-- The fields of `CollectionDto` but `children`.
pub record CollectionInfo : Type 0 where
  pub id : String
  pub name : String
  pub description : Option String
  pub parent_id : Option String
  pub restricted : Option Bool
  pub bookmark_count : Option ℕ
  pub new_count : Option ℕ
  pub shared : Option Bool
  pub locked : Option Bool

mutual
  pub data CollectionDto : Type 0 where
    collection : CollectionInfo → Children → CollectionDto

  -- `children?: Array<CollectionDto>`
  pub data Children : Type 0 where
    absent : Children
    listed : Collections → Children

  pub data Collections : Type 0 where
    empty : Collections
    with_child : CollectionDto → Collections → Collections

unfoldable mutual
  pub collection_dto_value : CollectionDto → Value
  collection_dto_value (collection c kids) = obj (
      field "id" (text c.id) (
        field "name" (text c.name) (
          field "description" (or_undefined text c.description) (
            field "parentId" (or_undefined text c.parent_id) (
              field "restricted" (or_undefined bool c.restricted) (
                field "children" (children_value kids) (
                  field "bookmarkCount" (or_undefined num c.bookmark_count) (
                    field "newCount" (or_undefined num c.new_count) (
                      field "shared" (or_undefined bool c.shared)
                        (field "locked" (or_undefined bool c.locked) end))))))))))

  pub children_value : Children → Value
  children_value absent = undefined
  children_value (listed cs) = arr (collection_items cs)

  pub collection_items : Collections → Items
  collection_items empty = nil
  collection_items (with_child c cs) = cons (collection_dto_value c) (collection_items cs)

-- The levels of the tree.
unfoldable mutual
  pub depth : CollectionDto → ℕ
  depth (collection c kids) = suc (depth_children kids)

  pub depth_children : Children → ℕ
  depth_children absent = 0
  depth_children (listed cs) = depth_items cs

  pub depth_items : Collections → ℕ
  depth_items empty = 0
  depth_items (with_child c cs) = max (depth c) (depth_items cs)

unfoldable pub instance_of_collection_dto : Value → Bool
instance_of_collection_dto v = has_field v "id" && has_field v "name"

unfoldable pub collection_dto_from_json : ℕ → Value → Option Value
collection_dto_from_json zero json = none
collection_dto_from_json (suc fuel) json =
    let child : Value → Option Value = λ v. collection_dto_from_json fuel v in
    if is_nullish json
    then some json
    else object (
        ("id", same (prop json "id"))
        ∷ ("name", same (prop json "name"))
        ∷ ("description", optional same (prop json "description"))
        ∷ ("parentId", optional same (prop json "parentId"))
        ∷ ("restricted", optional same (prop json "restricted"))
        ∷ ("children", optional (map_array child) (prop json "children"))
        ∷ ("bookmarkCount", optional same (prop json "bookmarkCount"))
        ∷ ("newCount", optional same (prop json "newCount"))
        ∷ ("shared", optional same (prop json "shared"))
        ∷ ("locked", optional same (prop json "locked"))
        ∷ [])

unfoldable pub collection_dto_to_json : ℕ → Value → Option Value
collection_dto_to_json zero v = none
collection_dto_to_json (suc fuel) v =
    let child : Value → Option Value = λ w. collection_dto_to_json fuel w in
    if is_nullish v
    then some v
    else object (
        ("id", same (prop v "id"))
        ∷ ("name", same (prop v "name"))
        ∷ ("description", same (prop v "description"))
        ∷ ("parentId", same (prop v "parentId"))
        ∷ ("restricted", same (prop v "restricted"))
        ∷ ("children", optional (map_array child) (prop v "children"))
        ∷ ("bookmarkCount", same (prop v "bookmarkCount"))
        ∷ ("newCount", same (prop v "newCount"))
        ∷ ("shared", same (prop v "shared"))
        ∷ ("locked", same (prop v "locked"))
        ∷ [])

abbrev ChildrenTrip : Dates → ℕ → Children → Type 0
ChildrenTrip dates fuel kids =
    RoundTrips dates (optional (map_array (λ w. collection_dto_to_json fuel w)))
      (optional (map_array (λ v. collection_dto_from_json fuel v))) (children_value kids)

abbrev ItemsTrip : Dates → ℕ → Collections → Type 0
ItemsTrip dates fuel cs =
    (js : Items) × (map_items (λ w. collection_dto_to_json fuel w) (collection_items cs) ≡ some js)
    × (map_items (λ v. collection_dto_from_json fuel v) (wire_items dates js)
        ≡ some (collection_items cs))

node-trips :
    (dates : Dates) (fuel : ℕ) (c : CollectionInfo) (kids : Children)
    → ChildrenTrip dates fuel kids
    → ModelTrips dates
        (collection_dto_to_json (suc fuel))
        (collection_dto_from_json (suc fuel))
        (collection_dto_value (collection c kids))
unfolding collection_dto_value collection_dto_to_json collection_dto_from_json wire
node-trips dates fuel c kids t =
    let properties : List (Trip dates) =
      text_trip "id" c.id
      ∷ text_trip "name" c.name
      ∷ optional_text_trip "description" c.description
      ∷ optional_text_trip "parentId" c.parent_id
      ∷ optional_bool_trip "restricted" c.restricted
      ∷ trip "children" "children" (optional (map_array (λ w. collection_dto_to_json fuel w)))
          (optional (map_array (λ v. collection_dto_from_json fuel v))) (children_value kids) t
      ∷ optional_num_trip "bookmarkCount" c.bookmark_count
      ∷ optional_num_trip "newCount" c.new_count
      ∷ optional_bool_trip "shared" c.shared
      ∷ optional_bool_trip "locked" c.locked
      ∷ [] in
    model-trips properties refl

mutual
  unfolding depth collection_dto_value wire collection_dto_to_json

  tree-trips :
      (c : CollectionDto) (dates : Dates) (fuel : ℕ)
      → depth c ≤ fuel
      → ModelTrips dates
          (collection_dto_to_json fuel)
          (collection_dto_from_json fuel)
          (collection_dto_value c)
  tree-trips (collection c kids) dates zero h = absurd (omega arith)
  tree-trips (collection c kids) dates (suc fuel) h =
      node-trips dates fuel c kids (children-trips kids dates fuel (omega arith))

  children-trips :
      (kids : Children) (dates : Dates) (fuel : ℕ)
      → depth_children kids ≤ fuel
      → ChildrenTrip dates fuel kids
  children-trips absent dates fuel h = (undefined, refl, refl)
  children-trips (listed cs) dates fuel h =
      let (js, e, r) = items-trips cs dates fuel h in
      (arr js, ap (λ o. o >>= λ vs. some (arr vs)) e, ap (λ o. o >>= λ vs. some (arr vs)) r)

  items-trips :
      (cs : Collections) (dates : Dates) (fuel : ℕ)
      → depth_items cs ≤ fuel
      → ItemsTrip dates fuel cs
  items-trips empty dates fuel h = (nil, refl, refl)
  items-trips (with_child c cs) dates fuel h =
      let (j, e, r) = tree-trips c dates fuel (omega arith) in
      let (js, es, rs) = items-trips cs dates fuel (omega arith) in
      (
        cons (obj j) js,
        map_items-cons (λ w. collection_dto_to_json fuel w) (collection_dto_value c) (obj j)
            (collection_items cs) js e es,
        map_items-cons (λ v. collection_dto_from_json fuel v) (obj (wire_fields dates j))
            (collection_dto_value c) (wire_items dates js) (collection_items cs) r rs,
      )

-- A tree of collections, sent and read back with fuel for its levels, is what it was, children that
-- are missing and children that are none told apart.
pub collection_dto-trips :
    (dates : Dates) (c : CollectionDto) (fuel : ℕ)
    → depth c ≤ fuel
    → ModelTrips dates
        (collection_dto_to_json fuel)
        (collection_dto_from_json fuel)
        (collection_dto_value c)
collection_dto-trips dates c fuel h = tree-trips c dates fuel h
