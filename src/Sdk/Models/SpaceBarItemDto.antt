-- ===== src/Sdk/Models/SpaceBarItemDto.antt =====
-- ui/v1/src/lib/sdk/models/SpaceBarItemDto.ts
use ragbag.Common.{◌≡◌, refl, String, Bool, true, Option, some, List, [], ◌∷◌, if◌then◌else◌}
use ragbag.Sdk.Value.{Value, text, obj, end, field, Dates, is_nullish, prop, wire}
use ragbag.Sdk.Codec.{optional, object, or_undefined, ModelTrips}
use ragbag.Sdk.Codec.Trips.{Trip, model-trips}
use ragbag.Sdk.Codec.Forms.{same, texts}
use ragbag.Sdk.Codec.Rows.{optional_text_trip, optional_texts_trip}

pub record SpaceBarItemDto : Type 0 where
  pub space_id : Option String
  pub folder_id : Option String
  pub name : Option String
  pub space_ids : Option (List String)

-- The object, with undefined for a property that is missing.
abbrev pub space_bar_item_dto_value : SpaceBarItemDto → Value
space_bar_item_dto_value d = obj (
    field "spaceId" (or_undefined text d.space_id) (
      field "folderId" (or_undefined text d.folder_id) (
        field "name" (or_undefined text d.name)
          (field "spaceIds" (or_undefined texts d.space_ids) end))))

unfoldable pub instance_of_space_bar_item_dto : Value → Bool
instance_of_space_bar_item_dto v = true

unfoldable pub space_bar_item_dto_from_json : Value → Option Value
space_bar_item_dto_from_json json =
    if is_nullish json
    then some json
    else object (
        ("spaceId", optional same (prop json "spaceId"))
        ∷ ("folderId", optional same (prop json "folderId"))
        ∷ ("name", optional same (prop json "name"))
        ∷ ("spaceIds", optional same (prop json "spaceIds"))
        ∷ [])

unfoldable pub space_bar_item_dto_to_json : Value → Option Value
space_bar_item_dto_to_json v =
    if is_nullish v
    then some v
    else object (
        ("spaceId", same (prop v "spaceId"))
        ∷ ("folderId", same (prop v "folderId"))
        ∷ ("name", same (prop v "name"))
        ∷ ("spaceIds", same (prop v "spaceIds"))
        ∷ [])

-- Sent and read back, a `SpaceBarItemDto` is what it was, and it passes the test for the model.
pub space_bar_item_dto-trips :
    (dates : Dates) (d : SpaceBarItemDto)
    → ModelTrips dates space_bar_item_dto_to_json space_bar_item_dto_from_json
        (space_bar_item_dto_value d)
      × (instance_of_space_bar_item_dto (space_bar_item_dto_value d) ≡ true)
unfolding space_bar_item_dto_to_json space_bar_item_dto_from_json instance_of_space_bar_item_dto
    wire
space_bar_item_dto-trips dates d =
    let properties : List (Trip dates) =
      optional_text_trip "spaceId" d.space_id
      ∷ optional_text_trip "folderId" d.folder_id
      ∷ optional_text_trip "name" d.name
      ∷ optional_texts_trip "spaceIds" d.space_ids
      ∷ [] in
    (model-trips properties refl, refl)
