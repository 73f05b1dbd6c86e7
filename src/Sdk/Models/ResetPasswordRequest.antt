-- ===== src/Sdk/Models/ResetPasswordRequest.antt =====
-- ui/v1/src/lib/sdk/models/ResetPasswordRequest.ts
use ragbag.Common.{◌≡◌, refl, String, Bool, true, Option, some, List, [], ◌∷◌, if◌then◌else◌}
use ragbag.Sdk.Value.{Value, text, obj, end, field, Dates, is_nullish, prop, wire}
use ragbag.Sdk.Codec.{object, has_field, ModelTrips}
use ragbag.Sdk.Codec.Trips.{Trip, model-trips}
use ragbag.Sdk.Codec.Forms.{same}
use ragbag.Sdk.Codec.Rows.{text_trip}

pub record ResetPasswordRequest : Type 0 where
  pub new_password : String

-- The object, with undefined for a property that is missing.
abbrev pub reset_password_request_value : ResetPasswordRequest → Value
reset_password_request_value d = obj (field "newPassword" (text d.new_password) end)

unfoldable pub instance_of_reset_password_request : Value → Bool
instance_of_reset_password_request v = has_field v "newPassword"

unfoldable pub reset_password_request_from_json : Value → Option Value
reset_password_request_from_json json =
    if is_nullish json
    then some json
    else object (("newPassword", same (prop json "newPassword")) ∷ [])

unfoldable pub reset_password_request_to_json : Value → Option Value
reset_password_request_to_json v =
    if is_nullish v then some v else object (("newPassword", same (prop v "newPassword")) ∷ [])

-- Sent and read back, a `ResetPasswordRequest` is what it was, and it passes the test for the model.
pub reset_password_request-trips :
    (dates : Dates) (d : ResetPasswordRequest)
    → ModelTrips dates reset_password_request_to_json reset_password_request_from_json
        (reset_password_request_value d)
      × (instance_of_reset_password_request (reset_password_request_value d) ≡ true)
unfolding reset_password_request_to_json reset_password_request_from_json
    instance_of_reset_password_request wire
reset_password_request-trips dates d =
    let properties : List (Trip dates) = text_trip "newPassword" d.new_password ∷ [] in
    (model-trips properties refl, refl)
