-- ===== src/Sdk/Models/DisplayNameDto.antt =====
-- ui/v1/src/lib/sdk/models/DisplayNameDto.ts
use ragbag.Common.{◌≡◌, refl, String, Bool, true, Option, some, List, [], ◌∷◌, if◌then◌else◌}
use ragbag.Sdk.Value.{Value, text, obj, end, field, Dates, is_nullish, prop, wire}
use ragbag.Sdk.Codec.{optional, object, or_undefined, ModelTrips}
use ragbag.Sdk.Codec.Trips.{Trip, model-trips}
use ragbag.Sdk.Codec.Forms.{same}
use ragbag.Sdk.Codec.Rows.{optional_text_trip}

pub record DisplayNameDto : Type 0 where
  pub display_name : Option String

-- The object, with undefined for a property that is missing.
abbrev pub display_name_dto_value : DisplayNameDto → Value
display_name_dto_value d = obj (field "displayName" (or_undefined text d.display_name) end)

unfoldable pub instance_of_display_name_dto : Value → Bool
instance_of_display_name_dto v = true

unfoldable pub display_name_dto_from_json : Value → Option Value
display_name_dto_from_json json =
    if is_nullish json
    then some json
    else object (("displayName", optional same (prop json "displayName")) ∷ [])

unfoldable pub display_name_dto_to_json : Value → Option Value
display_name_dto_to_json v =
    if is_nullish v then some v else object (("displayName", same (prop v "displayName")) ∷ [])

-- Sent and read back, a `DisplayNameDto` is what it was, and it passes the test for the model.
pub display_name_dto-trips :
    (dates : Dates) (d : DisplayNameDto)
    → ModelTrips dates display_name_dto_to_json display_name_dto_from_json
        (display_name_dto_value d)
      × (instance_of_display_name_dto (display_name_dto_value d) ≡ true)
unfolding display_name_dto_to_json display_name_dto_from_json instance_of_display_name_dto wire
display_name_dto-trips dates d =
    let properties : List (Trip dates) = optional_text_trip "displayName" d.display_name ∷ [] in
    (model-trips properties refl, refl)
