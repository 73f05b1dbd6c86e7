-- ===== src/Sdk/Models/FetchMetadataRequest.antt =====
-- ui/v1/src/lib/sdk/models/FetchMetadataRequest.ts
use ragbag.Common.{◌≡◌, refl, String, Bool, true, Option, some, List, [], ◌∷◌, if◌then◌else◌}
use ragbag.Sdk.Value.{Value, text, obj, end, field, Dates, is_nullish, prop, wire}
use ragbag.Sdk.Codec.{object, has_field, ModelTrips}
use ragbag.Sdk.Codec.Trips.{Trip, model-trips}
use ragbag.Sdk.Codec.Forms.{same}
use ragbag.Sdk.Codec.Rows.{text_trip}

pub record FetchMetadataRequest : Type 0 where
  pub url : String

-- The object, with undefined for a property that is missing.
abbrev pub fetch_metadata_request_value : FetchMetadataRequest → Value
fetch_metadata_request_value d = obj (field "url" (text d.url) end)

unfoldable pub instance_of_fetch_metadata_request : Value → Bool
instance_of_fetch_metadata_request v = has_field v "url"

unfoldable pub fetch_metadata_request_from_json : Value → Option Value
fetch_metadata_request_from_json json =
    if is_nullish json then some json else object (("url", same (prop json "url")) ∷ [])

unfoldable pub fetch_metadata_request_to_json : Value → Option Value
fetch_metadata_request_to_json v =
    if is_nullish v then some v else object (("url", same (prop v "url")) ∷ [])

-- Sent and read back, a `FetchMetadataRequest` is what it was, and it passes the test for the model.
pub fetch_metadata_request-trips :
    (dates : Dates) (d : FetchMetadataRequest)
    → ModelTrips dates fetch_metadata_request_to_json fetch_metadata_request_from_json
        (fetch_metadata_request_value d)
      × (instance_of_fetch_metadata_request (fetch_metadata_request_value d) ≡ true)
unfolding fetch_metadata_request_to_json fetch_metadata_request_from_json
    instance_of_fetch_metadata_request wire
fetch_metadata_request-trips dates d =
    let properties : List (Trip dates) = text_trip "url" d.url ∷ [] in
    (model-trips properties refl, refl)
