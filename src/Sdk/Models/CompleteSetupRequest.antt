-- ===== src/Sdk/Models/CompleteSetupRequest.antt =====
-- ui/v1/src/lib/sdk/models/CompleteSetupRequest.ts
use ragbag.Common.{◌≡◌, refl, String, Bool, true, ◌&&◌, Option, some, List, [], ◌∷◌, if◌then◌else◌}
use ragbag.Sdk.Value.{Value, text, obj, end, field, Dates, is_nullish, prop, wire}
use ragbag.Sdk.Codec.{object, has_field, ModelTrips}
use ragbag.Sdk.Codec.Trips.{Trip, model-trips}
use ragbag.Sdk.Codec.Forms.{same}
use ragbag.Sdk.Codec.Rows.{text_trip}

pub record CompleteSetupRequest : Type 0 where
  pub current_password : String
  pub new_password : String
  pub email : String

-- The object, with undefined for a property that is missing.
abbrev pub complete_setup_request_value : CompleteSetupRequest → Value
complete_setup_request_value d = obj (
    field "currentPassword" (text d.current_password)
      (field "newPassword" (text d.new_password) (field "email" (text d.email) end)))

unfoldable pub instance_of_complete_setup_request : Value → Bool
instance_of_complete_setup_request v =
    has_field v "currentPassword" && has_field v "newPassword" && has_field v "email"

unfoldable pub complete_setup_request_from_json : Value → Option Value
complete_setup_request_from_json json =
    if is_nullish json
    then some json
    else object (
        ("currentPassword", same (prop json "currentPassword"))
        ∷ ("newPassword", same (prop json "newPassword"))
        ∷ ("email", same (prop json "email"))
        ∷ [])

unfoldable pub complete_setup_request_to_json : Value → Option Value
complete_setup_request_to_json v =
    if is_nullish v
    then some v
    else object (
        ("currentPassword", same (prop v "currentPassword"))
        ∷ ("newPassword", same (prop v "newPassword"))
        ∷ ("email", same (prop v "email"))
        ∷ [])

-- Sent and read back, a `CompleteSetupRequest` is what it was, and it passes the test for the model.
pub complete_setup_request-trips :
    (dates : Dates) (d : CompleteSetupRequest)
    → ModelTrips dates complete_setup_request_to_json complete_setup_request_from_json
        (complete_setup_request_value d)
      × (instance_of_complete_setup_request (complete_setup_request_value d) ≡ true)
unfolding complete_setup_request_to_json complete_setup_request_from_json
    instance_of_complete_setup_request wire
complete_setup_request-trips dates d =
    let properties : List (Trip dates) =
      text_trip "currentPassword" d.current_password
      ∷ text_trip "newPassword" d.new_password
      ∷ text_trip "email" d.email
      ∷ [] in
    (model-trips properties refl, refl)
