-- ===== src/Sdk/Models/ModelError.antt =====
-- ui/v1/src/lib/sdk/models/ModelError.ts
use ragbag.Common.{◌≡◌, refl, String, Bool, true, Option, some, List, [], ◌∷◌, if◌then◌else◌}
use ragbag.Sdk.Value.{Value, text, obj, end, field, Dates, is_nullish, prop, wire}
use ragbag.Sdk.Codec.{optional, object, or_undefined, ModelTrips}
use ragbag.Sdk.Codec.Trips.{Trip, model-trips}
use ragbag.Sdk.Codec.Forms.{same}
use ragbag.Sdk.Codec.Rows.{optional_text_trip}

pub record ModelError : Type 0 where
  pub message : Option String

-- The object, with undefined for a property that is missing.
abbrev pub model_error_value : ModelError → Value
model_error_value d = obj (field "message" (or_undefined text d.message) end)

unfoldable pub instance_of_model_error : Value → Bool
instance_of_model_error v = true

unfoldable pub model_error_from_json : Value → Option Value
model_error_from_json json =
    if is_nullish json
    then some json
    else object (("message", optional same (prop json "message")) ∷ [])

unfoldable pub model_error_to_json : Value → Option Value
model_error_to_json v =
    if is_nullish v then some v else object (("message", same (prop v "message")) ∷ [])

-- Sent and read back, a `ModelError` is what it was, and it passes the test for the model.
pub model_error-trips :
    (dates : Dates) (d : ModelError)
    → ModelTrips dates model_error_to_json model_error_from_json (model_error_value d)
      × (instance_of_model_error (model_error_value d) ≡ true)
unfolding model_error_to_json model_error_from_json instance_of_model_error wire
model_error-trips dates d =
    let properties : List (Trip dates) = optional_text_trip "message" d.message ∷ [] in
    (model-trips properties refl, refl)
