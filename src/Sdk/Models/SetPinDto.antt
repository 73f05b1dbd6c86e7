-- ===== src/Sdk/Models/SetPinDto.antt =====
-- ui/v1/src/lib/sdk/models/SetPinDto.ts
use ragbag.Common.{◌≡◌, refl, String, Bool, true, ◌&&◌, Option, some, List, [], ◌∷◌, if◌then◌else◌}
use ragbag.Sdk.Value.{Value, text, obj, end, field, Dates, is_nullish, prop, wire}
use ragbag.Sdk.Codec.{object, has_field, ModelTrips}
use ragbag.Sdk.Codec.Trips.{Trip, model-trips}
use ragbag.Sdk.Codec.Forms.{same}
use ragbag.Sdk.Codec.Rows.{text_trip}

pub record SetPinDto : Type 0 where
  pub current_password : String
  pub pin : String

-- The object, with undefined for a property that is missing.
abbrev pub set_pin_dto_value : SetPinDto → Value
set_pin_dto_value d =
    obj (field "currentPassword" (text d.current_password) (field "pin" (text d.pin) end))

unfoldable pub instance_of_set_pin_dto : Value → Bool
instance_of_set_pin_dto v = has_field v "currentPassword" && has_field v "pin"

unfoldable pub set_pin_dto_from_json : Value → Option Value
set_pin_dto_from_json json =
    if is_nullish json
    then some json
    else object (
        ("currentPassword", same (prop json "currentPassword"))
        ∷ ("pin", same (prop json "pin"))
        ∷ [])

unfoldable pub set_pin_dto_to_json : Value → Option Value
set_pin_dto_to_json v =
    if is_nullish v
    then some v
    else object
        (("currentPassword", same (prop v "currentPassword")) ∷ ("pin", same (prop v "pin")) ∷ [])

-- Sent and read back, a `SetPinDto` is what it was, and it passes the test for the model.
pub set_pin_dto-trips :
    (dates : Dates) (d : SetPinDto)
    → ModelTrips dates set_pin_dto_to_json set_pin_dto_from_json (set_pin_dto_value d)
      × (instance_of_set_pin_dto (set_pin_dto_value d) ≡ true)
unfolding set_pin_dto_to_json set_pin_dto_from_json instance_of_set_pin_dto wire
set_pin_dto-trips dates d =
    let properties : List (Trip dates) =
      text_trip "currentPassword" d.current_password ∷ text_trip "pin" d.pin ∷ [] in
    (model-trips properties refl, refl)
