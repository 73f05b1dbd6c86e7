-- ===== src/Sdk/Models/DiscoverableSpaceDto.antt =====
-- ui/v1/src/lib/sdk/models/DiscoverableSpaceDto.ts
use ragbag.Common.{
  ℕ, ◌≡◌, refl, String, Bool, true, ◌&&◌, Option, some, List, [], ◌∷◌, if◌then◌else◌,
}
use ragbag.Sdk.Value.{Value, num, text, obj, end, field, Dates, is_nullish, prop, wire}
use ragbag.Sdk.Codec.{optional, object, has_field, or_undefined, ModelTrips}
use ragbag.Sdk.Codec.Trips.{Trip, model-trips}
use ragbag.Sdk.Codec.Forms.{same}
use ragbag.Sdk.Codec.Rows.{trip, text_trip, num_trip, optional_text_trip}
use ragbag.Sdk.Models.JoinRoleEnum.{
  JoinRoleEnum, join_role_enum_value, join_role_enum_from_json, join_role_enum_to_json,
  join_role_enum-trips,
}
use ragbag.Sdk.Models.SpaceMemberRoleEnum.{
  SpaceMemberRoleEnum, space_member_role_enum_value, space_member_role_enum_from_json,
  space_member_role_enum_to_json, optional_space_member_role_enum-trips,
}

pub record DiscoverableSpaceDto : Type 0 where
  pub id : String
  pub name : String
  pub description : Option String
  pub icon_id : Option String
  pub member_count : ℕ
  pub join_role : JoinRoleEnum
  pub role : Option SpaceMemberRoleEnum

-- The object, with undefined for a property that is missing.
abbrev pub discoverable_space_dto_value : DiscoverableSpaceDto → Value
discoverable_space_dto_value d = obj (
    field "id" (text d.id) (
      field "name" (text d.name) (
        field "description" (or_undefined text d.description) (
          field "iconId" (or_undefined text d.icon_id) (
            field "memberCount" (num d.member_count) (
              field "joinRole" (join_role_enum_value d.join_role)
                (field "role" (or_undefined space_member_role_enum_value d.role) end)))))))

unfoldable pub instance_of_discoverable_space_dto : Value → Bool
instance_of_discoverable_space_dto v =
    has_field v "id" && has_field v "name" && has_field v "memberCount" && has_field v "joinRole"

unfoldable pub discoverable_space_dto_from_json : Value → Option Value
discoverable_space_dto_from_json json =
    if is_nullish json
    then some json
    else object (
        ("id", same (prop json "id"))
        ∷ ("name", same (prop json "name"))
        ∷ ("description", optional same (prop json "description"))
        ∷ ("iconId", optional same (prop json "iconId"))
        ∷ ("memberCount", same (prop json "memberCount"))
        ∷ ("joinRole", join_role_enum_from_json (prop json "joinRole"))
        ∷ ("role", optional space_member_role_enum_from_json (prop json "role"))
        ∷ [])

unfoldable pub discoverable_space_dto_to_json : Value → Option Value
discoverable_space_dto_to_json v =
    if is_nullish v
    then some v
    else object (
        ("id", same (prop v "id"))
        ∷ ("name", same (prop v "name"))
        ∷ ("description", same (prop v "description"))
        ∷ ("iconId", same (prop v "iconId"))
        ∷ ("memberCount", same (prop v "memberCount"))
        ∷ ("joinRole", join_role_enum_to_json (prop v "joinRole"))
        ∷ ("role", space_member_role_enum_to_json (prop v "role"))
        ∷ [])

-- Sent and read back, a `DiscoverableSpaceDto` is what it was, and it passes the test for the model.
pub discoverable_space_dto-trips :
    (dates : Dates) (d : DiscoverableSpaceDto)
    → ModelTrips dates discoverable_space_dto_to_json discoverable_space_dto_from_json
        (discoverable_space_dto_value d)
      × (instance_of_discoverable_space_dto (discoverable_space_dto_value d) ≡ true)
unfolding discoverable_space_dto_to_json discoverable_space_dto_from_json
    instance_of_discoverable_space_dto wire
discoverable_space_dto-trips dates d =
    let properties : List (Trip dates) =
      text_trip "id" d.id
      ∷ text_trip "name" d.name
      ∷ optional_text_trip "description" d.description
      ∷ optional_text_trip "iconId" d.icon_id
      ∷ num_trip "memberCount" d.member_count
      ∷ trip "joinRole" "joinRole" join_role_enum_to_json join_role_enum_from_json
          (join_role_enum_value d.join_role) (join_role_enum-trips dates d.join_role)
      ∷ trip "role" "role" space_member_role_enum_to_json
          (optional space_member_role_enum_from_json)
          (or_undefined space_member_role_enum_value d.role)
          (optional_space_member_role_enum-trips dates d.role)
      ∷ [] in
    (model-trips properties refl, refl)
