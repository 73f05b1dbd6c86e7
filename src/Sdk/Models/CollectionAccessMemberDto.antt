-- ===== src/Sdk/Models/CollectionAccessMemberDto.antt =====
-- ui/v1/src/lib/sdk/models/CollectionAccessMemberDto.ts
use ragbag.Common.{◌≡◌, refl, String, Bool, true, ◌&&◌, Option, some, List, [], ◌∷◌, if◌then◌else◌}
use ragbag.Sdk.Value.{Value, text, obj, end, field, Dates, is_nullish, prop, wire}
use ragbag.Sdk.Codec.{optional, object, has_field, or_undefined, ModelTrips}
use ragbag.Sdk.Codec.Trips.{Trip, model-trips}
use ragbag.Sdk.Codec.Forms.{same}
use ragbag.Sdk.Codec.Rows.{text_trip, optional_text_trip}

pub record CollectionAccessMemberDto : Type 0 where
  pub user_id : String
  pub username : String
  pub display_name : Option String
  pub avatar_id : Option String

-- The object, with undefined for a property that is missing.
abbrev pub collection_access_member_dto_value : CollectionAccessMemberDto → Value
collection_access_member_dto_value d = obj (
    field "userId" (text d.user_id) (
      field "username" (text d.username) (
        field "displayName" (or_undefined text d.display_name)
          (field "avatarId" (or_undefined text d.avatar_id) end))))

unfoldable pub instance_of_collection_access_member_dto : Value → Bool
instance_of_collection_access_member_dto v = has_field v "userId" && has_field v "username"

unfoldable pub collection_access_member_dto_from_json : Value → Option Value
collection_access_member_dto_from_json json =
    if is_nullish json
    then some json
    else object (
        ("userId", same (prop json "userId"))
        ∷ ("username", same (prop json "username"))
        ∷ ("displayName", optional same (prop json "displayName"))
        ∷ ("avatarId", optional same (prop json "avatarId"))
        ∷ [])

unfoldable pub collection_access_member_dto_to_json : Value → Option Value
collection_access_member_dto_to_json v =
    if is_nullish v
    then some v
    else object (
        ("userId", same (prop v "userId"))
        ∷ ("username", same (prop v "username"))
        ∷ ("displayName", same (prop v "displayName"))
        ∷ ("avatarId", same (prop v "avatarId"))
        ∷ [])

-- Sent and read back, a `CollectionAccessMemberDto` is what it was, and it passes the test for the model.
pub collection_access_member_dto-trips :
    (dates : Dates) (d : CollectionAccessMemberDto)
    → ModelTrips dates collection_access_member_dto_to_json collection_access_member_dto_from_json
        (collection_access_member_dto_value d)
      × (instance_of_collection_access_member_dto (collection_access_member_dto_value d) ≡ true)
unfolding collection_access_member_dto_to_json collection_access_member_dto_from_json
    instance_of_collection_access_member_dto wire
collection_access_member_dto-trips dates d =
    let properties : List (Trip dates) =
      text_trip "userId" d.user_id
      ∷ text_trip "username" d.username
      ∷ optional_text_trip "displayName" d.display_name
      ∷ optional_text_trip "avatarId" d.avatar_id
      ∷ [] in
    (model-trips properties refl, refl)
