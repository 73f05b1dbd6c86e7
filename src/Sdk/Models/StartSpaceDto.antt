-- ===== src/Sdk/Models/StartSpaceDto.antt =====
-- ui/v1/src/lib/sdk/models/StartSpaceDto.ts
use ragbag.Common.{◌≡◌, refl, String, Bool, true, Option, some, List, [], ◌∷◌, if◌then◌else◌}
use ragbag.Sdk.Value.{Value, text, obj, end, field, Dates, is_nullish, prop, wire}
use ragbag.Sdk.Codec.{optional, object, or_undefined, ModelTrips}
use ragbag.Sdk.Codec.Trips.{Trip, model-trips}
use ragbag.Sdk.Codec.Forms.{same}
use ragbag.Sdk.Codec.Rows.{optional_text_trip}

pub record StartSpaceDto : Type 0 where
  pub space_id : Option String

-- The object, with undefined for a property that is missing.
abbrev pub start_space_dto_value : StartSpaceDto → Value
start_space_dto_value d = obj (field "spaceId" (or_undefined text d.space_id) end)

unfoldable pub instance_of_start_space_dto : Value → Bool
instance_of_start_space_dto v = true

unfoldable pub start_space_dto_from_json : Value → Option Value
start_space_dto_from_json json =
    if is_nullish json
    then some json
    else object (("spaceId", optional same (prop json "spaceId")) ∷ [])

unfoldable pub start_space_dto_to_json : Value → Option Value
start_space_dto_to_json v =
    if is_nullish v then some v else object (("spaceId", same (prop v "spaceId")) ∷ [])

-- Sent and read back, a `StartSpaceDto` is what it was, and it passes the test for the model.
pub start_space_dto-trips :
    (dates : Dates) (d : StartSpaceDto)
    → ModelTrips dates start_space_dto_to_json start_space_dto_from_json (start_space_dto_value d)
      × (instance_of_start_space_dto (start_space_dto_value d) ≡ true)
unfolding start_space_dto_to_json start_space_dto_from_json instance_of_start_space_dto wire
start_space_dto-trips dates d =
    let properties : List (Trip dates) = optional_text_trip "spaceId" d.space_id ∷ [] in
    (model-trips properties refl, refl)
