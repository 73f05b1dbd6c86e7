-- ===== src/Sdk/Models/SpaceBarDto.antt =====
-- ui/v1/src/lib/sdk/models/SpaceBarDto.ts
use ragbag.Common.{◌≡◌, refl, Bool, true, Option, some, List, [], ◌∷◌, if◌then◌else◌}
use ragbag.Sdk.Value.{Value, arr, obj, end, field, Dates, is_nullish, prop, wire}
use ragbag.Sdk.Codec.{map_array, object, has_field, array_of, ModelTrips}
use ragbag.Sdk.Codec.Trips.{Trip, model-trips}
use ragbag.Sdk.Codec.Rows.{models_trip}
use ragbag.Sdk.Models.SpaceBarItemDto.{
  SpaceBarItemDto, space_bar_item_dto_value, space_bar_item_dto_from_json,
  space_bar_item_dto_to_json, space_bar_item_dto-trips,
}

pub record SpaceBarDto : Type 0 where
  pub items : List SpaceBarItemDto

-- The object, with undefined for a property that is missing.
abbrev pub space_bar_dto_value : SpaceBarDto → Value
space_bar_dto_value d = obj (field "items" (arr (array_of space_bar_item_dto_value d.items)) end)

unfoldable pub instance_of_space_bar_dto : Value → Bool
instance_of_space_bar_dto v = has_field v "items"

unfoldable pub space_bar_dto_from_json : Value → Option Value
space_bar_dto_from_json json =
    if is_nullish json
    then some json
    else object (("items", map_array space_bar_item_dto_from_json (prop json "items")) ∷ [])

unfoldable pub space_bar_dto_to_json : Value → Option Value
space_bar_dto_to_json v =
    if is_nullish v
    then some v
    else object (("items", map_array space_bar_item_dto_to_json (prop v "items")) ∷ [])

-- Sent and read back, a `SpaceBarDto` is what it was, and it passes the test for the model.
pub space_bar_dto-trips :
    (dates : Dates) (d : SpaceBarDto)
    → ModelTrips dates space_bar_dto_to_json space_bar_dto_from_json (space_bar_dto_value d)
      × (instance_of_space_bar_dto (space_bar_dto_value d) ≡ true)
unfolding space_bar_dto_to_json space_bar_dto_from_json instance_of_space_bar_dto wire
space_bar_dto-trips dates d =
    let properties : List (Trip dates) =
      models_trip "items" space_bar_item_dto_value space_bar_item_dto_to_json
        space_bar_item_dto_from_json (λ x. (space_bar_item_dto-trips dates x).0) d.items
      ∷ [] in
    (model-trips properties refl, refl)
