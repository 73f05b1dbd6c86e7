-- ===== src/Sdk/Models/CreateCollectionDto.antt =====
-- ui/v1/src/lib/sdk/models/CreateCollectionDto.ts
use ragbag.Common.{◌≡◌, refl, String, Bool, true, Option, some, List, [], ◌∷◌, if◌then◌else◌}
use ragbag.Sdk.Value.{Value, bool, text, obj, end, field, Dates, is_nullish, prop, wire}
use ragbag.Sdk.Codec.{optional, object, has_field, or_undefined, ModelTrips}
use ragbag.Sdk.Codec.Trips.{Trip, model-trips}
use ragbag.Sdk.Codec.Forms.{same, texts}
use ragbag.Sdk.Codec.Rows.{text_trip, optional_text_trip, optional_bool_trip, optional_texts_trip}

pub record CreateCollectionDto : Type 0 where
  pub name : String
  pub parent_id : Option String
  pub restricted : Option Bool
  pub member_ids : Option (List String)

-- The object, with undefined for a property that is missing.
abbrev pub create_collection_dto_value : CreateCollectionDto → Value
create_collection_dto_value d = obj (
    field "name" (text d.name) (
      field "parentId" (or_undefined text d.parent_id) (
        field "restricted" (or_undefined bool d.restricted)
          (field "memberIds" (or_undefined texts d.member_ids) end))))

unfoldable pub instance_of_create_collection_dto : Value → Bool
instance_of_create_collection_dto v = has_field v "name"

unfoldable pub create_collection_dto_from_json : Value → Option Value
create_collection_dto_from_json json =
    if is_nullish json
    then some json
    else object (
        ("name", same (prop json "name"))
        ∷ ("parentId", optional same (prop json "parentId"))
        ∷ ("restricted", optional same (prop json "restricted"))
        ∷ ("memberIds", optional same (prop json "memberIds"))
        ∷ [])

unfoldable pub create_collection_dto_to_json : Value → Option Value
create_collection_dto_to_json v =
    if is_nullish v
    then some v
    else object (
        ("name", same (prop v "name"))
        ∷ ("parentId", same (prop v "parentId"))
        ∷ ("restricted", same (prop v "restricted"))
        ∷ ("memberIds", same (prop v "memberIds"))
        ∷ [])

-- Sent and read back, a `CreateCollectionDto` is what it was, and it passes the test for the model.
pub create_collection_dto-trips :
    (dates : Dates) (d : CreateCollectionDto)
    → ModelTrips dates create_collection_dto_to_json create_collection_dto_from_json
        (create_collection_dto_value d)
      × (instance_of_create_collection_dto (create_collection_dto_value d) ≡ true)
unfolding create_collection_dto_to_json create_collection_dto_from_json
    instance_of_create_collection_dto wire
create_collection_dto-trips dates d =
    let properties : List (Trip dates) =
      text_trip "name" d.name
      ∷ optional_text_trip "parentId" d.parent_id
      ∷ optional_bool_trip "restricted" d.restricted
      ∷ optional_texts_trip "memberIds" d.member_ids
      ∷ [] in
    (model-trips properties refl, refl)
