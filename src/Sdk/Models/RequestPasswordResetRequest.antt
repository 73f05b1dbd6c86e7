-- ===== src/Sdk/Models/RequestPasswordResetRequest.antt =====
-- ui/v1/src/lib/sdk/models/RequestPasswordResetRequest.ts
use ragbag.Common.{◌≡◌, refl, String, Bool, true, Option, some, List, [], ◌∷◌, if◌then◌else◌}
use ragbag.Sdk.Value.{Value, text, obj, end, field, Dates, is_nullish, prop, wire}
use ragbag.Sdk.Codec.{object, has_field, ModelTrips}
use ragbag.Sdk.Codec.Trips.{Trip, model-trips}
use ragbag.Sdk.Codec.Forms.{same}
use ragbag.Sdk.Codec.Rows.{text_trip}

pub record RequestPasswordResetRequest : Type 0 where
  pub login : String

-- The object, with undefined for a property that is missing.
abbrev pub request_password_reset_request_value : RequestPasswordResetRequest → Value
request_password_reset_request_value d = obj (field "login" (text d.login) end)

unfoldable pub instance_of_request_password_reset_request : Value → Bool
instance_of_request_password_reset_request v = has_field v "login"

unfoldable pub request_password_reset_request_from_json : Value → Option Value
request_password_reset_request_from_json json =
    if is_nullish json then some json else object (("login", same (prop json "login")) ∷ [])

unfoldable pub request_password_reset_request_to_json : Value → Option Value
request_password_reset_request_to_json v =
    if is_nullish v then some v else object (("login", same (prop v "login")) ∷ [])

-- Sent and read back, a `RequestPasswordResetRequest` is what it was, and it passes the test for the model.
pub request_password_reset_request-trips :
    (dates : Dates) (d : RequestPasswordResetRequest)
    → ModelTrips dates request_password_reset_request_to_json
        request_password_reset_request_from_json
        (request_password_reset_request_value d)
      × (instance_of_request_password_reset_request (request_password_reset_request_value d) ≡ true)
unfolding request_password_reset_request_to_json request_password_reset_request_from_json
    instance_of_request_password_reset_request wire
request_password_reset_request-trips dates d =
    let properties : List (Trip dates) = text_trip "login" d.login ∷ [] in
    (model-trips properties refl, refl)
