-- ===== src/Sdk/Models/CollectionAccessDto.antt =====
-- ui/v1/src/lib/sdk/models/CollectionAccessDto.ts
use ragbag.Common.{◌≡◌, refl, Bool, true, ◌&&◌, Option, some, List, [], ◌∷◌, if◌then◌else◌}
use ragbag.Sdk.Value.{Value, bool, arr, obj, end, field, Dates, is_nullish, prop, wire}
use ragbag.Sdk.Codec.{map_array, object, has_field, array_of, ModelTrips}
use ragbag.Sdk.Codec.Trips.{Trip, model-trips}
use ragbag.Sdk.Codec.Forms.{same}
use ragbag.Sdk.Codec.Rows.{bool_trip, models_trip}
use ragbag.Sdk.Models.CollectionAccessMemberDto.{
  CollectionAccessMemberDto, collection_access_member_dto_value,
  collection_access_member_dto_from_json, collection_access_member_dto_to_json,
  collection_access_member_dto-trips,
}

pub record CollectionAccessDto : Type 0 where
  pub restricted : Bool
  pub members : List CollectionAccessMemberDto
  pub can_manage : Bool

-- The object, with undefined for a property that is missing.
abbrev pub collection_access_dto_value : CollectionAccessDto → Value
collection_access_dto_value d = obj (
    field "restricted" (bool d.restricted) (
      field "members" (arr (array_of collection_access_member_dto_value d.members))
        (field "canManage" (bool d.can_manage) end)))

unfoldable pub instance_of_collection_access_dto : Value → Bool
instance_of_collection_access_dto v =
    has_field v "restricted" && has_field v "members" && has_field v "canManage"

unfoldable pub collection_access_dto_from_json : Value → Option Value
collection_access_dto_from_json json =
    if is_nullish json
    then some json
    else object (
        ("restricted", same (prop json "restricted"))
        ∷ ("members", map_array collection_access_member_dto_from_json (prop json "members"))
        ∷ ("canManage", same (prop json "canManage"))
        ∷ [])

unfoldable pub collection_access_dto_to_json : Value → Option Value
collection_access_dto_to_json v =
    if is_nullish v
    then some v
    else object (
        ("restricted", same (prop v "restricted"))
        ∷ ("members", map_array collection_access_member_dto_to_json (prop v "members"))
        ∷ ("canManage", same (prop v "canManage"))
        ∷ [])

-- Sent and read back, a `CollectionAccessDto` is what it was, and it passes the test for the model.
pub collection_access_dto-trips :
    (dates : Dates) (d : CollectionAccessDto)
    → ModelTrips dates collection_access_dto_to_json collection_access_dto_from_json
        (collection_access_dto_value d)
      × (instance_of_collection_access_dto (collection_access_dto_value d) ≡ true)
unfolding collection_access_dto_to_json collection_access_dto_from_json
    instance_of_collection_access_dto wire
collection_access_dto-trips dates d =
    let properties : List (Trip dates) =
      bool_trip "restricted" d.restricted
      ∷ models_trip "members" collection_access_member_dto_value
          collection_access_member_dto_to_json collection_access_member_dto_from_json
          (λ x. (collection_access_member_dto-trips dates x).0) d.members
      ∷ bool_trip "canManage" d.can_manage
      ∷ [] in
    (model-trips properties refl, refl)
