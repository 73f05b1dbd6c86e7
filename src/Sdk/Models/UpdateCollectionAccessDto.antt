-- ===== src/Sdk/Models/UpdateCollectionAccessDto.antt =====
-- ui/v1/src/lib/sdk/models/UpdateCollectionAccessDto.ts
use ragbag.Common.{◌≡◌, refl, String, Bool, true, Option, some, List, [], ◌∷◌, if◌then◌else◌}
use ragbag.Sdk.Value.{Value, bool, obj, end, field, Dates, is_nullish, prop, wire}
use ragbag.Sdk.Codec.{optional, object, has_field, or_undefined, ModelTrips}
use ragbag.Sdk.Codec.Trips.{Trip, model-trips}
use ragbag.Sdk.Codec.Forms.{same, texts}
use ragbag.Sdk.Codec.Rows.{bool_trip, optional_texts_trip}

pub record UpdateCollectionAccessDto : Type 0 where
  pub restricted : Bool
  pub member_ids : Option (List String)

-- The object, with undefined for a property that is missing.
abbrev pub update_collection_access_dto_value : UpdateCollectionAccessDto → Value
update_collection_access_dto_value d = obj (
    field "restricted" (bool d.restricted)
      (field "memberIds" (or_undefined texts d.member_ids) end))

unfoldable pub instance_of_update_collection_access_dto : Value → Bool
instance_of_update_collection_access_dto v = has_field v "restricted"

unfoldable pub update_collection_access_dto_from_json : Value → Option Value
update_collection_access_dto_from_json json =
    if is_nullish json
    then some json
    else object (
        ("restricted", same (prop json "restricted"))
        ∷ ("memberIds", optional same (prop json "memberIds"))
        ∷ [])

unfoldable pub update_collection_access_dto_to_json : Value → Option Value
update_collection_access_dto_to_json v =
    if is_nullish v
    then some v
    else object
        (("restricted", same (prop v "restricted")) ∷ ("memberIds", same (prop v "memberIds")) ∷ [])

-- Sent and read back, a `UpdateCollectionAccessDto` is what it was, and it passes the test for the model.
pub update_collection_access_dto-trips :
    (dates : Dates) (d : UpdateCollectionAccessDto)
    → ModelTrips dates update_collection_access_dto_to_json update_collection_access_dto_from_json
        (update_collection_access_dto_value d)
      × (instance_of_update_collection_access_dto (update_collection_access_dto_value d) ≡ true)
unfolding update_collection_access_dto_to_json update_collection_access_dto_from_json
    instance_of_update_collection_access_dto wire
update_collection_access_dto-trips dates d =
    let properties : List (Trip dates) =
      bool_trip "restricted" d.restricted ∷ optional_texts_trip "memberIds" d.member_ids ∷ [] in
    (model-trips properties refl, refl)
