-- ===== src/Sdk/Models/ChangePasswordRequest.antt =====
-- ui/v1/src/lib/sdk/models/ChangePasswordRequest.ts
use ragbag.Common.{◌≡◌, refl, String, Bool, true, ◌&&◌, Option, some, List, [], ◌∷◌, if◌then◌else◌}
use ragbag.Sdk.Value.{Value, text, obj, end, field, Dates, is_nullish, prop, wire}
use ragbag.Sdk.Codec.{object, has_field, ModelTrips}
use ragbag.Sdk.Codec.Trips.{Trip, model-trips}
use ragbag.Sdk.Codec.Forms.{same}
use ragbag.Sdk.Codec.Rows.{text_trip}

pub record ChangePasswordRequest : Type 0 where
  pub current_password : String
  pub new_password : String

-- The object, with undefined for a property that is missing.
abbrev pub change_password_request_value : ChangePasswordRequest → Value
change_password_request_value d = obj (
    field "currentPassword" (text d.current_password)
      (field "newPassword" (text d.new_password) end))

unfoldable pub instance_of_change_password_request : Value → Bool
instance_of_change_password_request v = has_field v "currentPassword" && has_field v "newPassword"

unfoldable pub change_password_request_from_json : Value → Option Value
change_password_request_from_json json =
    if is_nullish json
    then some json
    else object (
        ("currentPassword", same (prop json "currentPassword"))
        ∷ ("newPassword", same (prop json "newPassword"))
        ∷ [])

unfoldable pub change_password_request_to_json : Value → Option Value
change_password_request_to_json v =
    if is_nullish v
    then some v
    else object (
        ("currentPassword", same (prop v "currentPassword"))
        ∷ ("newPassword", same (prop v "newPassword"))
        ∷ [])

-- Sent and read back, a `ChangePasswordRequest` is what it was, and it passes the test for the model.
pub change_password_request-trips :
    (dates : Dates) (d : ChangePasswordRequest)
    → ModelTrips dates change_password_request_to_json change_password_request_from_json
        (change_password_request_value d)
      × (instance_of_change_password_request (change_password_request_value d) ≡ true)
unfolding change_password_request_to_json change_password_request_from_json
    instance_of_change_password_request wire
change_password_request-trips dates d =
    let properties : List (Trip dates) =
      text_trip "currentPassword" d.current_password
      ∷ text_trip "newPassword" d.new_password
      ∷ [] in
    (model-trips properties refl, refl)
