-- ===== src/Sdk/Models/TrashDto.antt =====
-- ui/v1/src/lib/sdk/models/TrashDto.ts
use ragbag.Common.{ℕ, ◌≡◌, refl, Bool, true, ◌&&◌, Option, some, List, [], ◌∷◌, if◌then◌else◌}
use ragbag.Sdk.Value.{Value, num, arr, obj, end, field, Dates, is_nullish, prop, wire}
use ragbag.Sdk.Codec.{map_array, object, has_field, array_of, ModelTrips}
use ragbag.Sdk.Codec.Trips.{Trip, model-trips}
use ragbag.Sdk.Codec.Forms.{same}
use ragbag.Sdk.Codec.Rows.{num_trip, models_trip}
use ragbag.Sdk.Models.TrashedBookmarkDto.{
  TrashedBookmarkDto, trashed_bookmark_dto_value, trashed_bookmark_dto_from_json,
  trashed_bookmark_dto_to_json, trashed_bookmark_dto-trips,
}
use ragbag.Sdk.Models.TrashedCollectionDto.{
  TrashedCollectionDto, trashed_collection_dto_value, trashed_collection_dto_from_json,
  trashed_collection_dto_to_json, trashed_collection_dto-trips,
}

pub record TrashDto : Type 0 where
  pub collections : List TrashedCollectionDto
  pub bookmarks : List TrashedBookmarkDto
  pub retention_days : ℕ

-- The object, with undefined for a property that is missing.
abbrev pub trash_dto_value : TrashDto → Value
trash_dto_value d = obj (
    field "collections" (arr (array_of trashed_collection_dto_value d.collections)) (
      field "bookmarks" (arr (array_of trashed_bookmark_dto_value d.bookmarks))
        (field "retentionDays" (num d.retention_days) end)))

unfoldable pub instance_of_trash_dto : Value → Bool
instance_of_trash_dto v =
    has_field v "collections" && has_field v "bookmarks" && has_field v "retentionDays"

unfoldable pub trash_dto_from_json : (dates : Dates) → Value → Option Value
trash_dto_from_json dates json =
    if is_nullish json
    then some json
    else object (
        (
          "collections",
          map_array (trashed_collection_dto_from_json dates) (prop json "collections"),
        )
        ∷ ("bookmarks", map_array (trashed_bookmark_dto_from_json dates) (prop json "bookmarks"))
        ∷ ("retentionDays", same (prop json "retentionDays"))
        ∷ [])

unfoldable pub trash_dto_to_json : (dates : Dates) → Value → Option Value
trash_dto_to_json dates v =
    if is_nullish v
    then some v
    else object (
        ("collections", map_array (trashed_collection_dto_to_json dates) (prop v "collections"))
        ∷ ("bookmarks", map_array (trashed_bookmark_dto_to_json dates) (prop v "bookmarks"))
        ∷ ("retentionDays", same (prop v "retentionDays"))
        ∷ [])

-- Sent and read back, a `TrashDto` is what it was, and it passes the test for the model.
pub trash_dto-trips :
    (dates : Dates) (d : TrashDto)
    → ModelTrips dates (trash_dto_to_json dates) (trash_dto_from_json dates) (trash_dto_value d)
      × (instance_of_trash_dto (trash_dto_value d) ≡ true)
unfolding trash_dto_to_json trash_dto_from_json instance_of_trash_dto wire
trash_dto-trips dates d =
    let properties : List (Trip dates) =
      models_trip "collections" trashed_collection_dto_value (trashed_collection_dto_to_json dates)
        (trashed_collection_dto_from_json dates) (λ x. (trashed_collection_dto-trips dates x).0)
        d.collections
      ∷ models_trip "bookmarks" trashed_bookmark_dto_value (trashed_bookmark_dto_to_json dates)
          (trashed_bookmark_dto_from_json dates) (λ x. (trashed_bookmark_dto-trips dates x).0)
          d.bookmarks
      ∷ num_trip "retentionDays" d.retention_days
      ∷ [] in
    (model-trips properties refl, refl)
