-- ===== src/Sdk/Models/TrashSelectionDto.antt =====
-- ui/v1/src/lib/sdk/models/TrashSelectionDto.ts
use ragbag.Common.{◌≡◌, refl, String, Bool, true, Option, some, List, [], ◌∷◌, if◌then◌else◌}
use ragbag.Sdk.Value.{Value, bool, obj, end, field, Dates, is_nullish, prop, wire}
use ragbag.Sdk.Codec.{optional, object, or_undefined, ModelTrips}
use ragbag.Sdk.Codec.Trips.{Trip, model-trips}
use ragbag.Sdk.Codec.Forms.{same, texts}
use ragbag.Sdk.Codec.Rows.{optional_bool_trip, optional_texts_trip}

pub record TrashSelectionDto : Type 0 where
  pub collection_ids : Option (List String)
  pub bookmark_ids : Option (List String)
  pub all : Option Bool

-- The object, with undefined for a property that is missing.
abbrev pub trash_selection_dto_value : TrashSelectionDto → Value
trash_selection_dto_value d = obj (
    field "collectionIds" (or_undefined texts d.collection_ids) (
      field "bookmarkIds" (or_undefined texts d.bookmark_ids)
        (field "all" (or_undefined bool d.all) end)))

unfoldable pub instance_of_trash_selection_dto : Value → Bool
instance_of_trash_selection_dto v = true

unfoldable pub trash_selection_dto_from_json : Value → Option Value
trash_selection_dto_from_json json =
    if is_nullish json
    then some json
    else object (
        ("collectionIds", optional same (prop json "collectionIds"))
        ∷ ("bookmarkIds", optional same (prop json "bookmarkIds"))
        ∷ ("all", optional same (prop json "all"))
        ∷ [])

unfoldable pub trash_selection_dto_to_json : Value → Option Value
trash_selection_dto_to_json v =
    if is_nullish v
    then some v
    else object (
        ("collectionIds", same (prop v "collectionIds"))
        ∷ ("bookmarkIds", same (prop v "bookmarkIds"))
        ∷ ("all", same (prop v "all"))
        ∷ [])

-- Sent and read back, a `TrashSelectionDto` is what it was, and it passes the test for the model.
pub trash_selection_dto-trips :
    (dates : Dates) (d : TrashSelectionDto)
    → ModelTrips dates trash_selection_dto_to_json trash_selection_dto_from_json
        (trash_selection_dto_value d)
      × (instance_of_trash_selection_dto (trash_selection_dto_value d) ≡ true)
unfolding trash_selection_dto_to_json trash_selection_dto_from_json instance_of_trash_selection_dto
    wire
trash_selection_dto-trips dates d =
    let properties : List (Trip dates) =
      optional_texts_trip "collectionIds" d.collection_ids
      ∷ optional_texts_trip "bookmarkIds" d.bookmark_ids
      ∷ optional_bool_trip "all" d.all
      ∷ [] in
    (model-trips properties refl, refl)
