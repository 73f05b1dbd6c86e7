-- ===== src/Sdk/Models/InstanceDto.antt =====
-- ui/v1/src/lib/sdk/models/InstanceDto.ts
use ragbag.Common.{◌≡◌, refl, Bool, true, Option, some, List, [], ◌∷◌, if◌then◌else◌}
use ragbag.Sdk.Value.{Value, bool, obj, end, field, Dates, is_nullish, prop, wire}
use ragbag.Sdk.Codec.{object, has_field, ModelTrips}
use ragbag.Sdk.Codec.Trips.{Trip, model-trips}
use ragbag.Sdk.Codec.Forms.{same}
use ragbag.Sdk.Codec.Rows.{bool_trip}

pub record InstanceDto : Type 0 where
  pub empty : Bool

-- The object, with undefined for a property that is missing.
abbrev pub instance_dto_value : InstanceDto → Value
instance_dto_value d = obj (field "empty" (bool d.empty) end)

unfoldable pub instance_of_instance_dto : Value → Bool
instance_of_instance_dto v = has_field v "empty"

unfoldable pub instance_dto_from_json : Value → Option Value
instance_dto_from_json json =
    if is_nullish json then some json else object (("empty", same (prop json "empty")) ∷ [])

unfoldable pub instance_dto_to_json : Value → Option Value
instance_dto_to_json v =
    if is_nullish v then some v else object (("empty", same (prop v "empty")) ∷ [])

-- Sent and read back, a `InstanceDto` is what it was, and it passes the test for the model.
pub instance_dto-trips :
    (dates : Dates) (d : InstanceDto)
    → ModelTrips dates instance_dto_to_json instance_dto_from_json (instance_dto_value d)
      × (instance_of_instance_dto (instance_dto_value d) ≡ true)
unfolding instance_dto_to_json instance_dto_from_json instance_of_instance_dto wire
instance_dto-trips dates d =
    let properties : List (Trip dates) = bool_trip "empty" d.empty ∷ [] in
    (model-trips properties refl, refl)
