-- ===== src/Sdk/Models/CreateInviteRequest.antt =====
-- ui/v1/src/lib/sdk/models/CreateInviteRequest.ts
use ragbag.Common.{
  ℕ, ◌≡◌, refl, String, Bool, true, ◌&&◌, Option, some, List, [], ◌∷◌, if◌then◌else◌,
}
use ragbag.Sdk.Value.{Value, num, text, obj, end, field, Dates, is_nullish, prop, wire}
use ragbag.Sdk.Codec.{
  parse_date_time, serialize_date_time, optional, nullable, object, has_field, or_undefined,
  ModelTrips,
}
use ragbag.Sdk.Codec.Trips.{Trip, model-trips}
use ragbag.Sdk.Codec.Forms.{same, instant, text-trips}
use ragbag.Sdk.Codec.Rows.{trip, text_trip, optional_num_trip, optional_date_trip}
use ragbag.Sdk.Models.InviteRoleEnum.{
  InviteRoleEnum, invite_role_enum_value, invite_role_enum_from_json, invite_role_enum_to_json,
  optional_invite_role_enum-trips,
}

pub data CreateInviteRequestTargetTypeEnum : Type 0 where
  space collection : CreateInviteRequestTargetTypeEnum

abbrev pub create_invite_request_target_type_enum_text : CreateInviteRequestTargetTypeEnum → String
create_invite_request_target_type_enum_text space = "SPACE"
create_invite_request_target_type_enum_text collection = "COLLECTION"

abbrev pub create_invite_request_target_type_enum_value : CreateInviteRequestTargetTypeEnum → Value
create_invite_request_target_type_enum_value e =
    text (create_invite_request_target_type_enum_text e)

pub record CreateInviteRequest : Type 0 where
  pub target_type : CreateInviteRequestTargetTypeEnum
  pub target_id : String
  pub role : Option InviteRoleEnum
  pub expires_at : Option ℕ
  pub max_uses : Option ℕ

-- The object, with undefined for a property that is missing.
abbrev pub create_invite_request_value : CreateInviteRequest → Value
create_invite_request_value d = obj (
    field "targetType" (create_invite_request_target_type_enum_value d.target_type) (
      field "targetId" (text d.target_id) (
        field "role" (or_undefined invite_role_enum_value d.role) (
          field "expiresAt" (or_undefined instant d.expires_at)
            (field "maxUses" (or_undefined num d.max_uses) end)))))

unfoldable pub instance_of_create_invite_request : Value → Bool
instance_of_create_invite_request v = has_field v "targetType" && has_field v "targetId"

unfoldable pub create_invite_request_from_json : (dates : Dates) → Value → Option Value
create_invite_request_from_json dates json =
    if is_nullish json
    then some json
    else object (
        ("targetType", same (prop json "targetType"))
        ∷ ("targetId", same (prop json "targetId"))
        ∷ ("role", optional invite_role_enum_from_json (prop json "role"))
        ∷ ("expiresAt", optional (parse_date_time dates) (prop json "expiresAt"))
        ∷ ("maxUses", optional same (prop json "maxUses"))
        ∷ [])

unfoldable pub create_invite_request_to_json : (dates : Dates) → Value → Option Value
create_invite_request_to_json dates v =
    if is_nullish v
    then some v
    else object (
        ("targetType", same (prop v "targetType"))
        ∷ ("targetId", same (prop v "targetId"))
        ∷ ("role", invite_role_enum_to_json (prop v "role"))
        ∷ ("expiresAt", nullable (serialize_date_time dates) (prop v "expiresAt"))
        ∷ ("maxUses", same (prop v "maxUses"))
        ∷ [])

-- Sent and read back, a `CreateInviteRequest` is what it was, and it passes the test for the model.
pub create_invite_request-trips :
    (dates : Dates) (d : CreateInviteRequest)
    → ModelTrips dates
        (create_invite_request_to_json dates)
        (create_invite_request_from_json dates)
        (create_invite_request_value d)
      × (instance_of_create_invite_request (create_invite_request_value d) ≡ true)
unfolding create_invite_request_to_json create_invite_request_from_json
    instance_of_create_invite_request wire
create_invite_request-trips dates d =
    let properties : List (Trip dates) =
      trip "targetType" "targetType" same same
        (create_invite_request_target_type_enum_value d.target_type)
        (text-trips dates (create_invite_request_target_type_enum_text d.target_type))
      ∷ text_trip "targetId" d.target_id
      ∷ trip "role" "role" invite_role_enum_to_json (optional invite_role_enum_from_json)
          (or_undefined invite_role_enum_value d.role)
          (optional_invite_role_enum-trips dates d.role)
      ∷ optional_date_trip "expiresAt" d.expires_at
      ∷ optional_num_trip "maxUses" d.max_uses
      ∷ [] in
    (model-trips properties refl, refl)
