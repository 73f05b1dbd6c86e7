-- ===== src/Sdk/Models/LoginRequest.antt =====
-- ui/v1/src/lib/sdk/models/LoginRequest.ts
use ragbag.Common.{◌≡◌, refl, String, Bool, true, ◌&&◌, Option, some, List, [], ◌∷◌, if◌then◌else◌}
use ragbag.Sdk.Value.{Value, text, obj, end, field, Dates, is_nullish, prop, wire}
use ragbag.Sdk.Codec.{object, has_field, ModelTrips}
use ragbag.Sdk.Codec.Trips.{Trip, model-trips}
use ragbag.Sdk.Codec.Forms.{same}
use ragbag.Sdk.Codec.Rows.{text_trip}

pub record LoginRequest : Type 0 where
  pub username : String
  pub password : String

-- The object, with undefined for a property that is missing.
abbrev pub login_request_value : LoginRequest → Value
login_request_value d =
    obj (field "username" (text d.username) (field "password" (text d.password) end))

unfoldable pub instance_of_login_request : Value → Bool
instance_of_login_request v = has_field v "username" && has_field v "password"

unfoldable pub login_request_from_json : Value → Option Value
login_request_from_json json =
    if is_nullish json
    then some json
    else object
        (("username", same (prop json "username")) ∷ ("password", same (prop json "password")) ∷ [])

unfoldable pub login_request_to_json : Value → Option Value
login_request_to_json v =
    if is_nullish v
    then some v
    else object
        (("username", same (prop v "username")) ∷ ("password", same (prop v "password")) ∷ [])

-- Sent and read back, a `LoginRequest` is what it was, and it passes the test for the model.
pub login_request-trips :
    (dates : Dates) (d : LoginRequest)
    → ModelTrips dates login_request_to_json login_request_from_json (login_request_value d)
      × (instance_of_login_request (login_request_value d) ≡ true)
unfolding login_request_to_json login_request_from_json instance_of_login_request wire
login_request-trips dates d =
    let properties : List (Trip dates) =
      text_trip "username" d.username ∷ text_trip "password" d.password ∷ [] in
    (model-trips properties refl, refl)
