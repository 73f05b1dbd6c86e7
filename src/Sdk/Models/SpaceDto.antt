-- ===== src/Sdk/Models/SpaceDto.antt =====
-- ui/v1/src/lib/sdk/models/SpaceDto.ts
use ragbag.Common.{
  ℕ, ◌≡◌, refl, String, Bool, true, ◌&&◌, Option, some, List, [], ◌∷◌, if◌then◌else◌,
}
use ragbag.Sdk.Value.{Value, num, bool, text, arr, obj, end, field, Dates, is_nullish, prop, wire}
use ragbag.Sdk.Codec.{optional, map_array, object, has_field, or_undefined, array_of, ModelTrips}
use ragbag.Sdk.Codec.Trips.{Trip, model-trips}
use ragbag.Sdk.Codec.Forms.{same, optional_texts_mapped-trips}
use ragbag.Sdk.Codec.Rows.{
  trip, text_trip, optional_text_trip, optional_num_trip, optional_bool_trip,
}
use ragbag.Sdk.Models.JoinRoleEnum.{
  JoinRoleEnum, join_role_enum_value, join_role_enum_from_json, join_role_enum_to_json,
  optional_join_role_enum-trips,
}
use ragbag.Sdk.Models.SpaceMemberRoleEnum.{
  SpaceMemberRoleEnum, space_member_role_enum_value, space_member_role_enum_from_json,
  space_member_role_enum_to_json, optional_space_member_role_enum-trips,
}
use ragbag.Sdk.Models.SpacePermissionEnum.{
  SpacePermissionEnum, space_permission_enum_text, space_permission_enum_value,
  space_permission_enum_from_json, space_permission_enum_to_json,
}

pub record SpaceDto : Type 0 where
  pub id : String
  pub name : String
  pub description : Option String
  pub icon_id : Option String
  pub role : Option SpaceMemberRoleEnum
  pub permissions : Option (List SpacePermissionEnum)
  pub discoverable : Option Bool
  pub join_role : Option JoinRoleEnum
  pub new_count : Option ℕ
  pub welcome_message : Option String
  pub welcome_html : Option String
  pub welcomed : Option Bool

-- The object, with undefined for a property that is missing.
abbrev pub space_dto_value : SpaceDto → Value
space_dto_value d = obj (
    field "id" (text d.id) (
      field "name" (text d.name) (
        field "description" (or_undefined text d.description) (
          field "iconId" (or_undefined text d.icon_id) (
            field "role" (or_undefined space_member_role_enum_value d.role) (
              field "permissions"
                (or_undefined (λ xs. arr (array_of space_permission_enum_value xs)) d.permissions)
                (field "discoverable" (or_undefined bool d.discoverable) (
                  field "joinRole" (or_undefined join_role_enum_value d.join_role) (
                    field "newCount" (or_undefined num d.new_count) (
                      field "welcomeMessage" (or_undefined text d.welcome_message) (
                        field "welcomeHtml" (or_undefined text d.welcome_html)
                          (field "welcomed" (or_undefined bool d.welcomed) end))))))))))))

unfoldable pub instance_of_space_dto : Value → Bool
instance_of_space_dto v = has_field v "id" && has_field v "name"

unfoldable pub space_dto_from_json : Value → Option Value
space_dto_from_json json =
    if is_nullish json
    then some json
    else object (
        ("id", same (prop json "id"))
        ∷ ("name", same (prop json "name"))
        ∷ ("description", optional same (prop json "description"))
        ∷ ("iconId", optional same (prop json "iconId"))
        ∷ ("role", optional space_member_role_enum_from_json (prop json "role"))
        ∷ (
          "permissions",
          optional (map_array space_permission_enum_from_json) (prop json "permissions"),
        )
        ∷ ("discoverable", optional same (prop json "discoverable"))
        ∷ ("joinRole", optional join_role_enum_from_json (prop json "joinRole"))
        ∷ ("newCount", optional same (prop json "newCount"))
        ∷ ("welcomeMessage", optional same (prop json "welcomeMessage"))
        ∷ ("welcomeHtml", optional same (prop json "welcomeHtml"))
        ∷ ("welcomed", optional same (prop json "welcomed"))
        ∷ [])

unfoldable pub space_dto_to_json : Value → Option Value
space_dto_to_json v =
    if is_nullish v
    then some v
    else object (
        ("id", same (prop v "id"))
        ∷ ("name", same (prop v "name"))
        ∷ ("description", same (prop v "description"))
        ∷ ("iconId", same (prop v "iconId"))
        ∷ ("role", space_member_role_enum_to_json (prop v "role"))
        ∷ ("permissions", optional (map_array space_permission_enum_to_json) (prop v "permissions"))
        ∷ ("discoverable", same (prop v "discoverable"))
        ∷ ("joinRole", join_role_enum_to_json (prop v "joinRole"))
        ∷ ("newCount", same (prop v "newCount"))
        ∷ ("welcomeMessage", same (prop v "welcomeMessage"))
        ∷ ("welcomeHtml", same (prop v "welcomeHtml"))
        ∷ ("welcomed", same (prop v "welcomed"))
        ∷ [])

-- Sent and read back, a `SpaceDto` is what it was, and it passes the test for the model.
pub space_dto-trips :
    (dates : Dates) (d : SpaceDto)
    → ModelTrips dates space_dto_to_json space_dto_from_json (space_dto_value d)
      × (instance_of_space_dto (space_dto_value d) ≡ true)
unfolding space_dto_to_json space_dto_from_json instance_of_space_dto wire
    space_permission_enum_to_json space_permission_enum_from_json
space_dto-trips dates d =
    let properties : List (Trip dates) =
      text_trip "id" d.id
      ∷ text_trip "name" d.name
      ∷ optional_text_trip "description" d.description
      ∷ optional_text_trip "iconId" d.icon_id
      ∷ trip "role" "role" space_member_role_enum_to_json
          (optional space_member_role_enum_from_json)
          (or_undefined space_member_role_enum_value d.role)
          (optional_space_member_role_enum-trips dates d.role)
      ∷ trip "permissions" "permissions" (optional (map_array space_permission_enum_to_json))
          (optional (map_array space_permission_enum_from_json))
          (or_undefined (λ xs. arr (array_of space_permission_enum_value xs)) d.permissions)
          (optional_texts_mapped-trips dates space_permission_enum_text d.permissions)
      ∷ optional_bool_trip "discoverable" d.discoverable
      ∷ trip "joinRole" "joinRole" join_role_enum_to_json (optional join_role_enum_from_json)
          (or_undefined join_role_enum_value d.join_role)
          (optional_join_role_enum-trips dates d.join_role)
      ∷ optional_num_trip "newCount" d.new_count
      ∷ optional_text_trip "welcomeMessage" d.welcome_message
      ∷ optional_text_trip "welcomeHtml" d.welcome_html
      ∷ optional_bool_trip "welcomed" d.welcomed
      ∷ [] in
    (model-trips properties refl, refl)
