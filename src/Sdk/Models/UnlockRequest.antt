-- ===== src/Sdk/Models/UnlockRequest.antt =====
-- ui/v1/src/lib/sdk/models/UnlockRequest.ts
use ragbag.Common.{◌≡◌, refl, String, Bool, true, Option, some, List, [], ◌∷◌, if◌then◌else◌}
use ragbag.Sdk.Value.{Value, text, obj, end, field, Dates, is_nullish, prop, wire}
use ragbag.Sdk.Codec.{object, has_field, ModelTrips}
use ragbag.Sdk.Codec.Trips.{Trip, model-trips}
use ragbag.Sdk.Codec.Forms.{same}
use ragbag.Sdk.Codec.Rows.{text_trip}

pub record UnlockRequest : Type 0 where
  pub pin : String

-- The object, with undefined for a property that is missing.
abbrev pub unlock_request_value : UnlockRequest → Value
unlock_request_value d = obj (field "pin" (text d.pin) end)

unfoldable pub instance_of_unlock_request : Value → Bool
instance_of_unlock_request v = has_field v "pin"

unfoldable pub unlock_request_from_json : Value → Option Value
unlock_request_from_json json =
    if is_nullish json then some json else object (("pin", same (prop json "pin")) ∷ [])

unfoldable pub unlock_request_to_json : Value → Option Value
unlock_request_to_json v =
    if is_nullish v then some v else object (("pin", same (prop v "pin")) ∷ [])

-- Sent and read back, a `UnlockRequest` is what it was, and it passes the test for the model.
pub unlock_request-trips :
    (dates : Dates) (d : UnlockRequest)
    → ModelTrips dates unlock_request_to_json unlock_request_from_json (unlock_request_value d)
      × (instance_of_unlock_request (unlock_request_value d) ≡ true)
unfolding unlock_request_to_json unlock_request_from_json instance_of_unlock_request wire
unlock_request-trips dates d =
    let properties : List (Trip dates) = text_trip "pin" d.pin ∷ [] in
    (model-trips properties refl, refl)
