-- ===== src/Sdk/Models/DeleteAccountRequest.antt =====
-- ui/v1/src/lib/sdk/models/DeleteAccountRequest.ts
use ragbag.Common.{◌≡◌, refl, String, Bool, true, Option, some, List, [], ◌∷◌, if◌then◌else◌}
use ragbag.Sdk.Value.{Value, text, obj, end, field, Dates, is_nullish, prop, wire}
use ragbag.Sdk.Codec.{object, has_field, ModelTrips}
use ragbag.Sdk.Codec.Trips.{Trip, model-trips}
use ragbag.Sdk.Codec.Forms.{same}
use ragbag.Sdk.Codec.Rows.{text_trip}

pub record DeleteAccountRequest : Type 0 where
  pub password : String

-- The object, with undefined for a property that is missing.
abbrev pub delete_account_request_value : DeleteAccountRequest → Value
delete_account_request_value d = obj (field "password" (text d.password) end)

unfoldable pub instance_of_delete_account_request : Value → Bool
instance_of_delete_account_request v = has_field v "password"

unfoldable pub delete_account_request_from_json : Value → Option Value
delete_account_request_from_json json =
    if is_nullish json then some json else object (("password", same (prop json "password")) ∷ [])

unfoldable pub delete_account_request_to_json : Value → Option Value
delete_account_request_to_json v =
    if is_nullish v then some v else object (("password", same (prop v "password")) ∷ [])

-- Sent and read back, a `DeleteAccountRequest` is what it was, and it passes the test for the model.
pub delete_account_request-trips :
    (dates : Dates) (d : DeleteAccountRequest)
    → ModelTrips dates delete_account_request_to_json delete_account_request_from_json
        (delete_account_request_value d)
      × (instance_of_delete_account_request (delete_account_request_value d) ≡ true)
unfolding delete_account_request_to_json delete_account_request_from_json
    instance_of_delete_account_request wire
delete_account_request-trips dates d =
    let properties : List (Trip dates) = text_trip "password" d.password ∷ [] in
    (model-trips properties refl, refl)
