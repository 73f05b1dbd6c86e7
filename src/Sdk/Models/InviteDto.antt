-- ===== src/Sdk/Models/InviteDto.antt =====
-- ui/v1/src/lib/sdk/models/InviteDto.ts
use ragbag.Common.{
  ℕ, ◌≡◌, refl, String, Bool, true, Option, none, some, List, [], ◌∷◌, if◌then◌else◌,
}
use ragbag.Sdk.Value.{Value, undefined, num, text, obj, end, field, Dates, is_nullish, prop, wire}
use ragbag.Sdk.Codec.{
  parse_date_time, serialize_date_time, optional, nullable, object, or_undefined, RoundTrips,
  ModelTrips,
}
use ragbag.Sdk.Codec.Trips.{Trip, model-trips}
use ragbag.Sdk.Codec.Forms.{same, instant}
use ragbag.Sdk.Codec.Rows.{trip, optional_text_trip, optional_num_trip, optional_date_trip}
use ragbag.Sdk.Models.InviteRoleEnum.{
  InviteRoleEnum, invite_role_enum_value, invite_role_enum_from_json, invite_role_enum_to_json,
  optional_invite_role_enum-trips,
}

pub data InviteDtoTargetTypeEnum : Type 0 where
  space collection : InviteDtoTargetTypeEnum

abbrev pub invite_dto_target_type_enum_text : InviteDtoTargetTypeEnum → String
invite_dto_target_type_enum_text space = "SPACE"
invite_dto_target_type_enum_text collection = "COLLECTION"

abbrev pub invite_dto_target_type_enum_value : InviteDtoTargetTypeEnum → Value
invite_dto_target_type_enum_value e = text (invite_dto_target_type_enum_text e)

optional_invite_dto_target_type_enum-trips :
    (dates : Dates) (o : Option InviteDtoTargetTypeEnum)
    → RoundTrips dates same (optional same) (or_undefined invite_dto_target_type_enum_value o)
unfolding wire
optional_invite_dto_target_type_enum-trips dates none = (undefined, refl, refl)
optional_invite_dto_target_type_enum-trips dates (some e) =
    (invite_dto_target_type_enum_value e, refl, refl)

pub record InviteDto : Type 0 where
  pub token : Option String
  pub target_type : Option InviteDtoTargetTypeEnum
  pub target_id : Option String
  pub role : Option InviteRoleEnum
  pub expires_at : Option ℕ
  pub max_uses : Option ℕ
  pub used_count : Option ℕ
  pub created_at : Option ℕ
  pub created_by : Option String

-- The object, with undefined for a property that is missing.
abbrev pub invite_dto_value : InviteDto → Value
invite_dto_value d = obj (
    field "token" (or_undefined text d.token) (
      field "targetType" (or_undefined invite_dto_target_type_enum_value d.target_type) (
        field "targetId" (or_undefined text d.target_id) (
          field "role" (or_undefined invite_role_enum_value d.role) (
            field "expiresAt" (or_undefined instant d.expires_at) (
              field "maxUses" (or_undefined num d.max_uses) (
                field "usedCount" (or_undefined num d.used_count) (
                  field "createdAt" (or_undefined instant d.created_at)
                    (field "createdBy" (or_undefined text d.created_by) end)))))))))

unfoldable pub instance_of_invite_dto : Value → Bool
instance_of_invite_dto v = true

unfoldable pub invite_dto_from_json : (dates : Dates) → Value → Option Value
invite_dto_from_json dates json =
    if is_nullish json
    then some json
    else object (
        ("token", optional same (prop json "token"))
        ∷ ("targetType", optional same (prop json "targetType"))
        ∷ ("targetId", optional same (prop json "targetId"))
        ∷ ("role", optional invite_role_enum_from_json (prop json "role"))
        ∷ ("expiresAt", optional (parse_date_time dates) (prop json "expiresAt"))
        ∷ ("maxUses", optional same (prop json "maxUses"))
        ∷ ("usedCount", optional same (prop json "usedCount"))
        ∷ ("createdAt", optional (parse_date_time dates) (prop json "createdAt"))
        ∷ ("createdBy", optional same (prop json "createdBy"))
        ∷ [])

unfoldable pub invite_dto_to_json : (dates : Dates) → Value → Option Value
invite_dto_to_json dates v =
    if is_nullish v
    then some v
    else object (
        ("token", same (prop v "token"))
        ∷ ("targetType", same (prop v "targetType"))
        ∷ ("targetId", same (prop v "targetId"))
        ∷ ("role", invite_role_enum_to_json (prop v "role"))
        ∷ ("expiresAt", nullable (serialize_date_time dates) (prop v "expiresAt"))
        ∷ ("maxUses", same (prop v "maxUses"))
        ∷ ("usedCount", same (prop v "usedCount"))
        ∷ ("createdAt", nullable (serialize_date_time dates) (prop v "createdAt"))
        ∷ ("createdBy", same (prop v "createdBy"))
        ∷ [])

-- Sent and read back, a `InviteDto` is what it was, and it passes the test for the model.
pub invite_dto-trips :
    (dates : Dates) (d : InviteDto)
    → ModelTrips dates (invite_dto_to_json dates) (invite_dto_from_json dates) (invite_dto_value d)
      × (instance_of_invite_dto (invite_dto_value d) ≡ true)
unfolding invite_dto_to_json invite_dto_from_json instance_of_invite_dto wire
invite_dto-trips dates d =
    let properties : List (Trip dates) =
      optional_text_trip "token" d.token
      ∷ trip "targetType" "targetType" same (optional same)
          (or_undefined invite_dto_target_type_enum_value d.target_type)
          (optional_invite_dto_target_type_enum-trips dates d.target_type)
      ∷ optional_text_trip "targetId" d.target_id
      ∷ trip "role" "role" invite_role_enum_to_json (optional invite_role_enum_from_json)
          (or_undefined invite_role_enum_value d.role)
          (optional_invite_role_enum-trips dates d.role)
      ∷ optional_date_trip "expiresAt" d.expires_at
      ∷ optional_num_trip "maxUses" d.max_uses
      ∷ optional_num_trip "usedCount" d.used_count
      ∷ optional_date_trip "createdAt" d.created_at
      ∷ optional_text_trip "createdBy" d.created_by
      ∷ [] in
    (model-trips properties refl, refl)
