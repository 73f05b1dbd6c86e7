-- ===== src/Sdk/Models/AdminUserDto.antt =====
-- ui/v1/src/lib/sdk/models/AdminUserDto.ts
use ragbag.Common.{
  ℕ, ◌≡◌, refl, String, Bool, true, ◌&&◌, Option, some, List, [], ◌∷◌, if◌then◌else◌,
}
use ragbag.Sdk.Value.{Value, num, bool, text, obj, end, field, Dates, is_nullish, prop, wire}
use ragbag.Sdk.Codec.{
  parse_date_time, serialize_date_time, optional, nullable, object, has_field, or_undefined,
  ModelTrips,
}
use ragbag.Sdk.Codec.Trips.{Trip, model-trips}
use ragbag.Sdk.Codec.Forms.{same, instant}
use ragbag.Sdk.Codec.Rows.{
  text_trip, bool_trip, optional_text_trip, optional_num_trip, optional_date_trip,
}

pub record AdminUserDto : Type 0 where
  pub id : String
  pub username : String
  pub display_name : Option String
  pub email : String
  pub avatar_id : Option String
  pub instance_admin : Bool
  pub created_at : Option ℕ
  pub spaces : Option ℕ
  pub blocked_at : Option ℕ
  pub blocked_reason : Option String

-- The object, with undefined for a property that is missing.
abbrev pub admin_user_dto_value : AdminUserDto → Value
admin_user_dto_value d = obj (
    field "id" (text d.id) (
      field "username" (text d.username) (
        field "displayName" (or_undefined text d.display_name) (
          field "email" (text d.email) (
            field "avatarId" (or_undefined text d.avatar_id) (
              field "instanceAdmin" (bool d.instance_admin) (
                field "createdAt" (or_undefined instant d.created_at) (
                  field "spaces" (or_undefined num d.spaces) (
                    field "blockedAt" (or_undefined instant d.blocked_at)
                      (field "blockedReason" (or_undefined text d.blocked_reason) end))))))))))

unfoldable pub instance_of_admin_user_dto : Value → Bool
instance_of_admin_user_dto v =
    has_field v "id" && has_field v "username" && has_field v "email" && has_field v "instanceAdmin"

unfoldable pub admin_user_dto_from_json : (dates : Dates) → Value → Option Value
admin_user_dto_from_json dates json =
    if is_nullish json
    then some json
    else object (
        ("id", same (prop json "id"))
        ∷ ("username", same (prop json "username"))
        ∷ ("displayName", optional same (prop json "displayName"))
        ∷ ("email", same (prop json "email"))
        ∷ ("avatarId", optional same (prop json "avatarId"))
        ∷ ("instanceAdmin", same (prop json "instanceAdmin"))
        ∷ ("createdAt", optional (parse_date_time dates) (prop json "createdAt"))
        ∷ ("spaces", optional same (prop json "spaces"))
        ∷ ("blockedAt", optional (parse_date_time dates) (prop json "blockedAt"))
        ∷ ("blockedReason", optional same (prop json "blockedReason"))
        ∷ [])

unfoldable pub admin_user_dto_to_json : (dates : Dates) → Value → Option Value
admin_user_dto_to_json dates v =
    if is_nullish v
    then some v
    else object (
        ("id", same (prop v "id"))
        ∷ ("username", same (prop v "username"))
        ∷ ("displayName", same (prop v "displayName"))
        ∷ ("email", same (prop v "email"))
        ∷ ("avatarId", same (prop v "avatarId"))
        ∷ ("instanceAdmin", same (prop v "instanceAdmin"))
        ∷ ("createdAt", nullable (serialize_date_time dates) (prop v "createdAt"))
        ∷ ("spaces", same (prop v "spaces"))
        ∷ ("blockedAt", nullable (serialize_date_time dates) (prop v "blockedAt"))
        ∷ ("blockedReason", same (prop v "blockedReason"))
        ∷ [])

-- Sent and read back, a `AdminUserDto` is what it was, and it passes the test for the model.
pub admin_user_dto-trips :
    (dates : Dates) (d : AdminUserDto)
    → ModelTrips dates
        (admin_user_dto_to_json dates)
        (admin_user_dto_from_json dates)
        (admin_user_dto_value d)
      × (instance_of_admin_user_dto (admin_user_dto_value d) ≡ true)
unfolding admin_user_dto_to_json admin_user_dto_from_json instance_of_admin_user_dto wire
admin_user_dto-trips dates d =
    let properties : List (Trip dates) =
      text_trip "id" d.id
      ∷ text_trip "username" d.username
      ∷ optional_text_trip "displayName" d.display_name
      ∷ text_trip "email" d.email
      ∷ optional_text_trip "avatarId" d.avatar_id
      ∷ bool_trip "instanceAdmin" d.instance_admin
      ∷ optional_date_trip "createdAt" d.created_at
      ∷ optional_num_trip "spaces" d.spaces
      ∷ optional_date_trip "blockedAt" d.blocked_at
      ∷ optional_text_trip "blockedReason" d.blocked_reason
      ∷ [] in
    (model-trips properties refl, refl)
