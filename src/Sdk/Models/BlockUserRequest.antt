-- ===== src/Sdk/Models/BlockUserRequest.antt =====
-- ui/v1/src/lib/sdk/models/BlockUserRequest.ts
use ragbag.Common.{◌≡◌, refl, String, Bool, true, Option, some, List, [], ◌∷◌, if◌then◌else◌}
use ragbag.Sdk.Value.{Value, text, obj, end, field, Dates, is_nullish, prop, wire}
use ragbag.Sdk.Codec.{optional, object, or_undefined, ModelTrips}
use ragbag.Sdk.Codec.Trips.{Trip, model-trips}
use ragbag.Sdk.Codec.Forms.{same}
use ragbag.Sdk.Codec.Rows.{optional_text_trip}

pub record BlockUserRequest : Type 0 where
  pub reason : Option String

-- The object, with undefined for a property that is missing.
abbrev pub block_user_request_value : BlockUserRequest → Value
block_user_request_value d = obj (field "reason" (or_undefined text d.reason) end)

unfoldable pub instance_of_block_user_request : Value → Bool
instance_of_block_user_request v = true

unfoldable pub block_user_request_from_json : Value → Option Value
block_user_request_from_json json =
    if is_nullish json
    then some json
    else object (("reason", optional same (prop json "reason")) ∷ [])

unfoldable pub block_user_request_to_json : Value → Option Value
block_user_request_to_json v =
    if is_nullish v then some v else object (("reason", same (prop v "reason")) ∷ [])

-- Sent and read back, a `BlockUserRequest` is what it was, and it passes the test for the model.
pub block_user_request-trips :
    (dates : Dates) (d : BlockUserRequest)
    → ModelTrips dates block_user_request_to_json block_user_request_from_json
        (block_user_request_value d)
      × (instance_of_block_user_request (block_user_request_value d) ≡ true)
unfolding block_user_request_to_json block_user_request_from_json instance_of_block_user_request
    wire
block_user_request-trips dates d =
    let properties : List (Trip dates) = optional_text_trip "reason" d.reason ∷ [] in
    (model-trips properties refl, refl)
