-- ===== src/Sdk/Models/UserDto.antt =====
-- ui/v1/src/lib/sdk/models/UserDto.ts
use ragbag.Common.{
  ℕ, ◌≡◌, refl, String, Bool, true, ◌&&◌, Option, some, List, [], ◌∷◌, if◌then◌else◌,
}
use ragbag.Sdk.Value.{Value, num, bool, text, obj, end, field, Dates, is_nullish, prop, wire}
use ragbag.Sdk.Codec.{optional, object, has_field, or_undefined, ModelTrips}
use ragbag.Sdk.Codec.Trips.{Trip, model-trips}
use ragbag.Sdk.Codec.Forms.{same}
use ragbag.Sdk.Codec.Rows.{text_trip, optional_text_trip, optional_num_trip, optional_bool_trip}

pub record UserDto : Type 0 where
  pub id : String
  pub username : String
  pub display_name : Option String
  pub email : String
  pub avatar_id : Option String
  pub instance_admin : Option Bool
  pub has_pin : Option Bool
  pub start_space_id : Option String
  pub must_change_password : Option Bool
  pub open_reports : Option ℕ

-- The object, with undefined for a property that is missing.
abbrev pub user_dto_value : UserDto → Value
user_dto_value d = obj (
    field "id" (text d.id) (
      field "username" (text d.username) (
        field "displayName" (or_undefined text d.display_name) (
          field "email" (text d.email) (
            field "avatarId" (or_undefined text d.avatar_id) (
              field "instanceAdmin" (or_undefined bool d.instance_admin) (
                field "hasPin" (or_undefined bool d.has_pin) (
                  field "startSpaceId" (or_undefined text d.start_space_id) (
                    field "mustChangePassword" (or_undefined bool d.must_change_password)
                      (field "openReports" (or_undefined num d.open_reports) end))))))))))

unfoldable pub instance_of_user_dto : Value → Bool
instance_of_user_dto v = has_field v "id" && has_field v "username" && has_field v "email"

unfoldable pub user_dto_from_json : Value → Option Value
user_dto_from_json json =
    if is_nullish json
    then some json
    else object (
        ("id", same (prop json "id"))
        ∷ ("username", same (prop json "username"))
        ∷ ("displayName", optional same (prop json "displayName"))
        ∷ ("email", same (prop json "email"))
        ∷ ("avatarId", optional same (prop json "avatarId"))
        ∷ ("instanceAdmin", optional same (prop json "instanceAdmin"))
        ∷ ("hasPin", optional same (prop json "hasPin"))
        ∷ ("startSpaceId", optional same (prop json "startSpaceId"))
        ∷ ("mustChangePassword", optional same (prop json "mustChangePassword"))
        ∷ ("openReports", optional same (prop json "openReports"))
        ∷ [])

unfoldable pub user_dto_to_json : Value → Option Value
user_dto_to_json v =
    if is_nullish v
    then some v
    else object (
        ("id", same (prop v "id"))
        ∷ ("username", same (prop v "username"))
        ∷ ("displayName", same (prop v "displayName"))
        ∷ ("email", same (prop v "email"))
        ∷ ("avatarId", same (prop v "avatarId"))
        ∷ ("instanceAdmin", same (prop v "instanceAdmin"))
        ∷ ("hasPin", same (prop v "hasPin"))
        ∷ ("startSpaceId", same (prop v "startSpaceId"))
        ∷ ("mustChangePassword", same (prop v "mustChangePassword"))
        ∷ ("openReports", same (prop v "openReports"))
        ∷ [])

-- Sent and read back, a `UserDto` is what it was, and it passes the test for the model.
pub user_dto-trips :
    (dates : Dates) (d : UserDto)
    → ModelTrips dates user_dto_to_json user_dto_from_json (user_dto_value d)
      × (instance_of_user_dto (user_dto_value d) ≡ true)
unfolding user_dto_to_json user_dto_from_json instance_of_user_dto wire
user_dto-trips dates d =
    let properties : List (Trip dates) =
      text_trip "id" d.id
      ∷ text_trip "username" d.username
      ∷ optional_text_trip "displayName" d.display_name
      ∷ text_trip "email" d.email
      ∷ optional_text_trip "avatarId" d.avatar_id
      ∷ optional_bool_trip "instanceAdmin" d.instance_admin
      ∷ optional_bool_trip "hasPin" d.has_pin
      ∷ optional_text_trip "startSpaceId" d.start_space_id
      ∷ optional_bool_trip "mustChangePassword" d.must_change_password
      ∷ optional_num_trip "openReports" d.open_reports
      ∷ [] in
    (model-trips properties refl, refl)
