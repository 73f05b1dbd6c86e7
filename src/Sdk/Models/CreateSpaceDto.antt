-- ===== src/Sdk/Models/CreateSpaceDto.antt =====
-- ui/v1/src/lib/sdk/models/CreateSpaceDto.ts
use ragbag.Common.{◌≡◌, refl, String, Bool, true, Option, some, List, [], ◌∷◌, if◌then◌else◌}
use ragbag.Sdk.Value.{Value, text, obj, end, field, Dates, is_nullish, prop, wire}
use ragbag.Sdk.Codec.{optional, object, has_field, or_undefined, ModelTrips}
use ragbag.Sdk.Codec.Trips.{Trip, model-trips}
use ragbag.Sdk.Codec.Forms.{same}
use ragbag.Sdk.Codec.Rows.{text_trip, optional_text_trip}

pub record CreateSpaceDto : Type 0 where
  pub name : String
  pub description : Option String

-- The object, with undefined for a property that is missing.
abbrev pub create_space_dto_value : CreateSpaceDto → Value
create_space_dto_value d =
    obj (field "name" (text d.name) (field "description" (or_undefined text d.description) end))

unfoldable pub instance_of_create_space_dto : Value → Bool
instance_of_create_space_dto v = has_field v "name"

unfoldable pub create_space_dto_from_json : Value → Option Value
create_space_dto_from_json json =
    if is_nullish json
    then some json
    else object (
        ("name", same (prop json "name"))
        ∷ ("description", optional same (prop json "description"))
        ∷ [])

unfoldable pub create_space_dto_to_json : Value → Option Value
create_space_dto_to_json v =
    if is_nullish v
    then some v
    else object (("name", same (prop v "name")) ∷ ("description", same (prop v "description")) ∷ [])

-- Sent and read back, a `CreateSpaceDto` is what it was, and it passes the test for the model.
pub create_space_dto-trips :
    (dates : Dates) (d : CreateSpaceDto)
    → ModelTrips dates create_space_dto_to_json create_space_dto_from_json
        (create_space_dto_value d)
      × (instance_of_create_space_dto (create_space_dto_value d) ≡ true)
unfolding create_space_dto_to_json create_space_dto_from_json instance_of_create_space_dto wire
create_space_dto-trips dates d =
    let properties : List (Trip dates) =
      text_trip "name" d.name ∷ optional_text_trip "description" d.description ∷ [] in
    (model-trips properties refl, refl)
