-- ===== src/Sdk/Models/LoginResponse.antt =====
-- ui/v1/src/lib/sdk/models/LoginResponse.ts
use ragbag.Common.{◌≡◌, refl, String, Bool, true, Option, some, List, [], ◌∷◌, if◌then◌else◌}
use ragbag.Sdk.Value.{Value, text, obj, end, field, Dates, is_nullish, prop, wire}
use ragbag.Sdk.Codec.{object, ModelTrips}
use ragbag.Sdk.Codec.Trips.{Trip, model-trips}
use ragbag.Sdk.Codec.Forms.{same, text-trips}
use ragbag.Sdk.Codec.Rows.{trip}

pub record LoginResponse : Type 0 where
  pub access_token : String

-- The object, with undefined for a property that is missing.
abbrev pub login_response_value : LoginResponse → Value
login_response_value d = obj (field "accessToken" (text d.access_token) end)

unfoldable pub instance_of_login_response : Value → Bool
instance_of_login_response v = true

unfoldable pub login_response_from_json : Value → Option Value
login_response_from_json json =
    if is_nullish json
    then some json
    else object (("accessToken", same (prop json "access_token")) ∷ [])

unfoldable pub login_response_to_json : Value → Option Value
login_response_to_json v =
    if is_nullish v then some v else object (("access_token", same (prop v "accessToken")) ∷ [])

-- Sent and read back, a `LoginResponse` is what it was, and it passes the test for the model.
pub login_response-trips :
    (dates : Dates) (d : LoginResponse)
    → ModelTrips dates login_response_to_json login_response_from_json (login_response_value d)
      × (instance_of_login_response (login_response_value d) ≡ true)
unfolding login_response_to_json login_response_from_json instance_of_login_response wire
login_response-trips dates d =
    let properties : List (Trip dates) =
      trip "accessToken" "access_token" same same (text d.access_token)
        (text-trips dates d.access_token)
      ∷ [] in
    (model-trips properties refl, refl)
