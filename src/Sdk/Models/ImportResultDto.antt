-- ===== src/Sdk/Models/ImportResultDto.antt =====
-- ui/v1/src/lib/sdk/models/ImportResultDto.ts
use ragbag.Common.{
  ℕ, ◌≡◌, refl, String, Bool, true, ◌&&◌, Option, some, List, [], ◌∷◌, if◌then◌else◌,
}
use ragbag.Sdk.Value.{Value, num, bool, text, obj, end, field, Dates, is_nullish, prop, wire}
use ragbag.Sdk.Codec.{optional, object, has_field, or_undefined, ModelTrips}
use ragbag.Sdk.Codec.Trips.{Trip, model-trips}
use ragbag.Sdk.Codec.Forms.{same}
use ragbag.Sdk.Codec.Rows.{num_trip, bool_trip, optional_text_trip}

pub record ImportResultDto : Type 0 where
  pub preview : Bool
  pub format_version : ℕ
  pub app_version : Option String
  pub collections_created : ℕ
  pub collections_merged : ℕ
  pub bookmarks_imported : ℕ
  pub bookmarks_skipped : ℕ
  pub bookmarks_invalid : ℕ

-- The object, with undefined for a property that is missing.
abbrev pub import_result_dto_value : ImportResultDto → Value
import_result_dto_value d = obj (
    field "preview" (bool d.preview) (
      field "formatVersion" (num d.format_version) (
        field "appVersion" (or_undefined text d.app_version) (
          field "collectionsCreated" (num d.collections_created) (
            field "collectionsMerged" (num d.collections_merged) (
              field "bookmarksImported" (num d.bookmarks_imported) (
                field "bookmarksSkipped" (num d.bookmarks_skipped)
                  (field "bookmarksInvalid" (num d.bookmarks_invalid) end))))))))

unfoldable pub instance_of_import_result_dto : Value → Bool
instance_of_import_result_dto v =
    has_field v "preview"
    && has_field v "formatVersion"
    && has_field v "collectionsCreated"
    && has_field v "collectionsMerged"
    && has_field v "bookmarksImported"
    && has_field v "bookmarksSkipped"
    && has_field v "bookmarksInvalid"

unfoldable pub import_result_dto_from_json : Value → Option Value
import_result_dto_from_json json =
    if is_nullish json
    then some json
    else object (
        ("preview", same (prop json "preview"))
        ∷ ("formatVersion", same (prop json "formatVersion"))
        ∷ ("appVersion", optional same (prop json "appVersion"))
        ∷ ("collectionsCreated", same (prop json "collectionsCreated"))
        ∷ ("collectionsMerged", same (prop json "collectionsMerged"))
        ∷ ("bookmarksImported", same (prop json "bookmarksImported"))
        ∷ ("bookmarksSkipped", same (prop json "bookmarksSkipped"))
        ∷ ("bookmarksInvalid", same (prop json "bookmarksInvalid"))
        ∷ [])

unfoldable pub import_result_dto_to_json : Value → Option Value
import_result_dto_to_json v =
    if is_nullish v
    then some v
    else object (
        ("preview", same (prop v "preview"))
        ∷ ("formatVersion", same (prop v "formatVersion"))
        ∷ ("appVersion", same (prop v "appVersion"))
        ∷ ("collectionsCreated", same (prop v "collectionsCreated"))
        ∷ ("collectionsMerged", same (prop v "collectionsMerged"))
        ∷ ("bookmarksImported", same (prop v "bookmarksImported"))
        ∷ ("bookmarksSkipped", same (prop v "bookmarksSkipped"))
        ∷ ("bookmarksInvalid", same (prop v "bookmarksInvalid"))
        ∷ [])

-- Sent and read back, a `ImportResultDto` is what it was, and it passes the test for the model.
pub import_result_dto-trips :
    (dates : Dates) (d : ImportResultDto)
    → ModelTrips dates import_result_dto_to_json import_result_dto_from_json
        (import_result_dto_value d)
      × (instance_of_import_result_dto (import_result_dto_value d) ≡ true)
unfolding import_result_dto_to_json import_result_dto_from_json instance_of_import_result_dto wire
import_result_dto-trips dates d =
    let properties : List (Trip dates) =
      bool_trip "preview" d.preview
      ∷ num_trip "formatVersion" d.format_version
      ∷ optional_text_trip "appVersion" d.app_version
      ∷ num_trip "collectionsCreated" d.collections_created
      ∷ num_trip "collectionsMerged" d.collections_merged
      ∷ num_trip "bookmarksImported" d.bookmarks_imported
      ∷ num_trip "bookmarksSkipped" d.bookmarks_skipped
      ∷ num_trip "bookmarksInvalid" d.bookmarks_invalid
      ∷ [] in
    (model-trips properties refl, refl)
