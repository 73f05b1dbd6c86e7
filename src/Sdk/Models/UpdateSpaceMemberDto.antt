-- ===== src/Sdk/Models/UpdateSpaceMemberDto.antt =====
-- ui/v1/src/lib/sdk/models/UpdateSpaceMemberDto.ts
use ragbag.Common.{◌≡◌, refl, Bool, true, Option, some, List, [], ◌∷◌, if◌then◌else◌}
use ragbag.Sdk.Value.{Value, obj, end, field, Dates, is_nullish, prop, wire}
use ragbag.Sdk.Codec.{object, has_field, ModelTrips}
use ragbag.Sdk.Codec.Trips.{Trip, model-trips}
use ragbag.Sdk.Codec.Rows.{trip}
use ragbag.Sdk.Models.SpaceMemberRoleEnum.{
  SpaceMemberRoleEnum, space_member_role_enum_value, space_member_role_enum_from_json,
  space_member_role_enum_to_json, space_member_role_enum-trips,
}

pub record UpdateSpaceMemberDto : Type 0 where
  pub role : SpaceMemberRoleEnum

-- The object, with undefined for a property that is missing.
abbrev pub update_space_member_dto_value : UpdateSpaceMemberDto → Value
update_space_member_dto_value d = obj (field "role" (space_member_role_enum_value d.role) end)

unfoldable pub instance_of_update_space_member_dto : Value → Bool
instance_of_update_space_member_dto v = has_field v "role"

unfoldable pub update_space_member_dto_from_json : Value → Option Value
update_space_member_dto_from_json json =
    if is_nullish json
    then some json
    else object (("role", space_member_role_enum_from_json (prop json "role")) ∷ [])

unfoldable pub update_space_member_dto_to_json : Value → Option Value
update_space_member_dto_to_json v =
    if is_nullish v
    then some v
    else object (("role", space_member_role_enum_to_json (prop v "role")) ∷ [])

-- Sent and read back, a `UpdateSpaceMemberDto` is what it was, and it passes the test for the model.
pub update_space_member_dto-trips :
    (dates : Dates) (d : UpdateSpaceMemberDto)
    → ModelTrips dates update_space_member_dto_to_json update_space_member_dto_from_json
        (update_space_member_dto_value d)
      × (instance_of_update_space_member_dto (update_space_member_dto_value d) ≡ true)
unfolding update_space_member_dto_to_json update_space_member_dto_from_json
    instance_of_update_space_member_dto wire
update_space_member_dto-trips dates d =
    let properties : List (Trip dates) =
      trip "role" "role" space_member_role_enum_to_json space_member_role_enum_from_json
        (space_member_role_enum_value d.role) (space_member_role_enum-trips dates d.role)
      ∷ [] in
    (model-trips properties refl, refl)
