-- ===== src/Sdk/Models/SpaceMemberDto.antt =====
-- ui/v1/src/lib/sdk/models/SpaceMemberDto.ts
use ragbag.Common.{◌≡◌, refl, String, Bool, true, ◌&&◌, Option, some, List, [], ◌∷◌, if◌then◌else◌}
use ragbag.Sdk.Value.{Value, text, obj, end, field, Dates, is_nullish, prop, wire}
use ragbag.Sdk.Codec.{optional, object, has_field, or_undefined, ModelTrips}
use ragbag.Sdk.Codec.Trips.{Trip, model-trips}
use ragbag.Sdk.Codec.Forms.{same}
use ragbag.Sdk.Codec.Rows.{trip, text_trip, optional_text_trip}
use ragbag.Sdk.Models.SpaceMemberRoleEnum.{
  SpaceMemberRoleEnum, space_member_role_enum_value, space_member_role_enum_from_json,
  space_member_role_enum_to_json, space_member_role_enum-trips,
}

pub record SpaceMemberDto : Type 0 where
  pub user_id : String
  pub username : String
  pub display_name : Option String
  pub avatar_id : Option String
  pub role : SpaceMemberRoleEnum

-- The object, with undefined for a property that is missing.
abbrev pub space_member_dto_value : SpaceMemberDto → Value
space_member_dto_value d = obj (
    field "userId" (text d.user_id) (
      field "username" (text d.username) (
        field "displayName" (or_undefined text d.display_name) (
          field "avatarId" (or_undefined text d.avatar_id)
            (field "role" (space_member_role_enum_value d.role) end)))))

unfoldable pub instance_of_space_member_dto : Value → Bool
instance_of_space_member_dto v =
    has_field v "userId" && has_field v "username" && has_field v "role"

unfoldable pub space_member_dto_from_json : Value → Option Value
space_member_dto_from_json json =
    if is_nullish json
    then some json
    else object (
        ("userId", same (prop json "userId"))
        ∷ ("username", same (prop json "username"))
        ∷ ("displayName", optional same (prop json "displayName"))
        ∷ ("avatarId", optional same (prop json "avatarId"))
        ∷ ("role", space_member_role_enum_from_json (prop json "role"))
        ∷ [])

unfoldable pub space_member_dto_to_json : Value → Option Value
space_member_dto_to_json v =
    if is_nullish v
    then some v
    else object (
        ("userId", same (prop v "userId"))
        ∷ ("username", same (prop v "username"))
        ∷ ("displayName", same (prop v "displayName"))
        ∷ ("avatarId", same (prop v "avatarId"))
        ∷ ("role", space_member_role_enum_to_json (prop v "role"))
        ∷ [])

-- Sent and read back, a `SpaceMemberDto` is what it was, and it passes the test for the model.
pub space_member_dto-trips :
    (dates : Dates) (d : SpaceMemberDto)
    → ModelTrips dates space_member_dto_to_json space_member_dto_from_json
        (space_member_dto_value d)
      × (instance_of_space_member_dto (space_member_dto_value d) ≡ true)
unfolding space_member_dto_to_json space_member_dto_from_json instance_of_space_member_dto wire
space_member_dto-trips dates d =
    let properties : List (Trip dates) =
      text_trip "userId" d.user_id
      ∷ text_trip "username" d.username
      ∷ optional_text_trip "displayName" d.display_name
      ∷ optional_text_trip "avatarId" d.avatar_id
      ∷ trip "role" "role" space_member_role_enum_to_json space_member_role_enum_from_json
          (space_member_role_enum_value d.role) (space_member_role_enum-trips dates d.role)
      ∷ [] in
    (model-trips properties refl, refl)
