-- ===== src/Sdk/Models/UpdateSpaceDto.antt =====
-- ui/v1/src/lib/sdk/models/UpdateSpaceDto.ts
use ragbag.Common.{◌≡◌, refl, String, Bool, true, Option, some, List, [], ◌∷◌, if◌then◌else◌}
use ragbag.Sdk.Value.{Value, bool, text, obj, end, field, Dates, is_nullish, prop, wire}
use ragbag.Sdk.Codec.{optional, object, has_field, or_undefined, ModelTrips}
use ragbag.Sdk.Codec.Trips.{Trip, model-trips}
use ragbag.Sdk.Codec.Forms.{same}
use ragbag.Sdk.Codec.Rows.{trip, text_trip, optional_text_trip, optional_bool_trip}
use ragbag.Sdk.Models.JoinRoleEnum.{
  JoinRoleEnum, join_role_enum_value, join_role_enum_from_json, join_role_enum_to_json,
  optional_join_role_enum-trips,
}

pub record UpdateSpaceDto : Type 0 where
  pub name : String
  pub description : Option String
  pub discoverable : Option Bool
  pub join_role : Option JoinRoleEnum
  pub welcome_message : Option String

-- The object, with undefined for a property that is missing.
abbrev pub update_space_dto_value : UpdateSpaceDto → Value
update_space_dto_value d = obj (
    field "name" (text d.name) (
      field "description" (or_undefined text d.description) (
        field "discoverable" (or_undefined bool d.discoverable) (
          field "joinRole" (or_undefined join_role_enum_value d.join_role)
            (field "welcomeMessage" (or_undefined text d.welcome_message) end)))))

unfoldable pub instance_of_update_space_dto : Value → Bool
instance_of_update_space_dto v = has_field v "name"

unfoldable pub update_space_dto_from_json : Value → Option Value
update_space_dto_from_json json =
    if is_nullish json
    then some json
    else object (
        ("name", same (prop json "name"))
        ∷ ("description", optional same (prop json "description"))
        ∷ ("discoverable", optional same (prop json "discoverable"))
        ∷ ("joinRole", optional join_role_enum_from_json (prop json "joinRole"))
        ∷ ("welcomeMessage", optional same (prop json "welcomeMessage"))
        ∷ [])

unfoldable pub update_space_dto_to_json : Value → Option Value
update_space_dto_to_json v =
    if is_nullish v
    then some v
    else object (
        ("name", same (prop v "name"))
        ∷ ("description", same (prop v "description"))
        ∷ ("discoverable", same (prop v "discoverable"))
        ∷ ("joinRole", join_role_enum_to_json (prop v "joinRole"))
        ∷ ("welcomeMessage", same (prop v "welcomeMessage"))
        ∷ [])

-- Sent and read back, a `UpdateSpaceDto` is what it was, and it passes the test for the model.
pub update_space_dto-trips :
    (dates : Dates) (d : UpdateSpaceDto)
    → ModelTrips dates update_space_dto_to_json update_space_dto_from_json
        (update_space_dto_value d)
      × (instance_of_update_space_dto (update_space_dto_value d) ≡ true)
unfolding update_space_dto_to_json update_space_dto_from_json instance_of_update_space_dto wire
update_space_dto-trips dates d =
    let properties : List (Trip dates) =
      text_trip "name" d.name
      ∷ optional_text_trip "description" d.description
      ∷ optional_bool_trip "discoverable" d.discoverable
      ∷ trip "joinRole" "joinRole" join_role_enum_to_json (optional join_role_enum_from_json)
          (or_undefined join_role_enum_value d.join_role)
          (optional_join_role_enum-trips dates d.join_role)
      ∷ optional_text_trip "welcomeMessage" d.welcome_message
      ∷ [] in
    (model-trips properties refl, refl)
