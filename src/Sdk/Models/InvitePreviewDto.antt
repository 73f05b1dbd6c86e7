-- ===== src/Sdk/Models/InvitePreviewDto.antt =====
-- ui/v1/src/lib/sdk/models/InvitePreviewDto.ts
use ragbag.Common.{◌≡◌, refl, String, Bool, true, ◌&&◌, Option, some, List, [], ◌∷◌, if◌then◌else◌}
use ragbag.Sdk.Value.{Value, bool, text, obj, end, field, Dates, is_nullish, prop, wire}
use ragbag.Sdk.Codec.{optional, object, has_field, or_undefined, ModelTrips}
use ragbag.Sdk.Codec.Trips.{Trip, model-trips}
use ragbag.Sdk.Codec.Forms.{same, text-trips}
use ragbag.Sdk.Codec.Rows.{trip, text_trip, bool_trip, optional_text_trip, optional_bool_trip}
use ragbag.Sdk.Models.InviteRoleEnum.{
  InviteRoleEnum, invite_role_enum_value, invite_role_enum_from_json, invite_role_enum_to_json,
  optional_invite_role_enum-trips,
}

pub data InvitePreviewDtoTargetTypeEnum : Type 0 where
  space collection : InvitePreviewDtoTargetTypeEnum

abbrev pub invite_preview_dto_target_type_enum_text : InvitePreviewDtoTargetTypeEnum → String
invite_preview_dto_target_type_enum_text space = "SPACE"
invite_preview_dto_target_type_enum_text collection = "COLLECTION"

abbrev pub invite_preview_dto_target_type_enum_value : InvitePreviewDtoTargetTypeEnum → Value
invite_preview_dto_target_type_enum_value e = text (invite_preview_dto_target_type_enum_text e)

pub record InvitePreviewDto : Type 0 where
  pub target_type : InvitePreviewDtoTargetTypeEnum
  pub target_id : String
  pub target_name : Option String
  pub role : Option InviteRoleEnum
  pub invited_by : Option String
  pub valid : Bool
  pub already_member : Bool
  pub registration : Option Bool

-- The object, with undefined for a property that is missing.
abbrev pub invite_preview_dto_value : InvitePreviewDto → Value
invite_preview_dto_value d = obj (
    field "targetType" (invite_preview_dto_target_type_enum_value d.target_type) (
      field "targetId" (text d.target_id) (
        field "targetName" (or_undefined text d.target_name) (
          field "role" (or_undefined invite_role_enum_value d.role) (
            field "invitedBy" (or_undefined text d.invited_by) (
              field "valid" (bool d.valid) (
                field "alreadyMember" (bool d.already_member)
                  (field "registration" (or_undefined bool d.registration) end))))))))

unfoldable pub instance_of_invite_preview_dto : Value → Bool
instance_of_invite_preview_dto v =
    has_field v "targetType"
    && has_field v "targetId"
    && has_field v "valid"
    && has_field v "alreadyMember"

unfoldable pub invite_preview_dto_from_json : Value → Option Value
invite_preview_dto_from_json json =
    if is_nullish json
    then some json
    else object (
        ("targetType", same (prop json "targetType"))
        ∷ ("targetId", same (prop json "targetId"))
        ∷ ("targetName", optional same (prop json "targetName"))
        ∷ ("role", optional invite_role_enum_from_json (prop json "role"))
        ∷ ("invitedBy", optional same (prop json "invitedBy"))
        ∷ ("valid", same (prop json "valid"))
        ∷ ("alreadyMember", same (prop json "alreadyMember"))
        ∷ ("registration", optional same (prop json "registration"))
        ∷ [])

unfoldable pub invite_preview_dto_to_json : Value → Option Value
invite_preview_dto_to_json v =
    if is_nullish v
    then some v
    else object (
        ("targetType", same (prop v "targetType"))
        ∷ ("targetId", same (prop v "targetId"))
        ∷ ("targetName", same (prop v "targetName"))
        ∷ ("role", invite_role_enum_to_json (prop v "role"))
        ∷ ("invitedBy", same (prop v "invitedBy"))
        ∷ ("valid", same (prop v "valid"))
        ∷ ("alreadyMember", same (prop v "alreadyMember"))
        ∷ ("registration", same (prop v "registration"))
        ∷ [])

-- Sent and read back, a `InvitePreviewDto` is what it was, and it passes the test for the model.
pub invite_preview_dto-trips :
    (dates : Dates) (d : InvitePreviewDto)
    → ModelTrips dates invite_preview_dto_to_json invite_preview_dto_from_json
        (invite_preview_dto_value d)
      × (instance_of_invite_preview_dto (invite_preview_dto_value d) ≡ true)
unfolding invite_preview_dto_to_json invite_preview_dto_from_json instance_of_invite_preview_dto
    wire
invite_preview_dto-trips dates d =
    let properties : List (Trip dates) =
      trip "targetType" "targetType" same same
        (invite_preview_dto_target_type_enum_value d.target_type)
        (text-trips dates (invite_preview_dto_target_type_enum_text d.target_type))
      ∷ text_trip "targetId" d.target_id
      ∷ optional_text_trip "targetName" d.target_name
      ∷ trip "role" "role" invite_role_enum_to_json (optional invite_role_enum_from_json)
          (or_undefined invite_role_enum_value d.role)
          (optional_invite_role_enum-trips dates d.role)
      ∷ optional_text_trip "invitedBy" d.invited_by
      ∷ bool_trip "valid" d.valid
      ∷ bool_trip "alreadyMember" d.already_member
      ∷ optional_bool_trip "registration" d.registration
      ∷ [] in
    (model-trips properties refl, refl)
