-- ===== src/Sdk/Models/TrashedBookmarkDto.antt =====
-- ui/v1/src/lib/sdk/models/TrashedBookmarkDto.ts
use ragbag.Common.{
  ℕ, ◌≡◌, refl, String, Bool, true, ◌&&◌, Option, some, List, [], ◌∷◌, if◌then◌else◌,
}
use ragbag.Sdk.Value.{Value, text, obj, end, field, Dates, is_nullish, prop, wire}
use ragbag.Sdk.Codec.{
  parse_date_time, serialize_date_time, optional, nullable, object, has_field, or_undefined,
  ModelTrips,
}
use ragbag.Sdk.Codec.Trips.{Trip, model-trips}
use ragbag.Sdk.Codec.Forms.{same, instant}
use ragbag.Sdk.Codec.Rows.{text_trip, date_trip, optional_text_trip}

pub record TrashedBookmarkDto : Type 0 where
  pub id : String
  pub url : String
  pub title : Option String
  pub favicon : Option String
  pub collection_id : String
  pub collection_name : Option String
  pub deleted_at : ℕ
  pub deleted_by : Option String

-- The object, with undefined for a property that is missing.
abbrev pub trashed_bookmark_dto_value : TrashedBookmarkDto → Value
trashed_bookmark_dto_value d = obj (
    field "id" (text d.id) (
      field "url" (text d.url) (
        field "title" (or_undefined text d.title) (
          field "favicon" (or_undefined text d.favicon) (
            field "collectionId" (text d.collection_id) (
              field "collectionName" (or_undefined text d.collection_name) (
                field "deletedAt" (instant d.deleted_at)
                  (field "deletedBy" (or_undefined text d.deleted_by) end))))))))

unfoldable pub instance_of_trashed_bookmark_dto : Value → Bool
instance_of_trashed_bookmark_dto v =
    has_field v "id" && has_field v "url" && has_field v "collectionId" && has_field v "deletedAt"

unfoldable pub trashed_bookmark_dto_from_json : (dates : Dates) → Value → Option Value
trashed_bookmark_dto_from_json dates json =
    if is_nullish json
    then some json
    else object (
        ("id", same (prop json "id"))
        ∷ ("url", same (prop json "url"))
        ∷ ("title", optional same (prop json "title"))
        ∷ ("favicon", optional same (prop json "favicon"))
        ∷ ("collectionId", same (prop json "collectionId"))
        ∷ ("collectionName", optional same (prop json "collectionName"))
        ∷ ("deletedAt", nullable (parse_date_time dates) (prop json "deletedAt"))
        ∷ ("deletedBy", optional same (prop json "deletedBy"))
        ∷ [])

unfoldable pub trashed_bookmark_dto_to_json : (dates : Dates) → Value → Option Value
trashed_bookmark_dto_to_json dates v =
    if is_nullish v
    then some v
    else object (
        ("id", same (prop v "id"))
        ∷ ("url", same (prop v "url"))
        ∷ ("title", same (prop v "title"))
        ∷ ("favicon", same (prop v "favicon"))
        ∷ ("collectionId", same (prop v "collectionId"))
        ∷ ("collectionName", same (prop v "collectionName"))
        ∷ ("deletedAt", nullable (serialize_date_time dates) (prop v "deletedAt"))
        ∷ ("deletedBy", same (prop v "deletedBy"))
        ∷ [])

-- Sent and read back, a `TrashedBookmarkDto` is what it was, and it passes the test for the model.
pub trashed_bookmark_dto-trips :
    (dates : Dates) (d : TrashedBookmarkDto)
    → ModelTrips dates
        (trashed_bookmark_dto_to_json dates)
        (trashed_bookmark_dto_from_json dates)
        (trashed_bookmark_dto_value d)
      × (instance_of_trashed_bookmark_dto (trashed_bookmark_dto_value d) ≡ true)
unfolding trashed_bookmark_dto_to_json trashed_bookmark_dto_from_json
    instance_of_trashed_bookmark_dto wire
trashed_bookmark_dto-trips dates d =
    let properties : List (Trip dates) =
      text_trip "id" d.id
      ∷ text_trip "url" d.url
      ∷ optional_text_trip "title" d.title
      ∷ optional_text_trip "favicon" d.favicon
      ∷ text_trip "collectionId" d.collection_id
      ∷ optional_text_trip "collectionName" d.collection_name
      ∷ date_trip "deletedAt" d.deleted_at
      ∷ optional_text_trip "deletedBy" d.deleted_by
      ∷ [] in
    (model-trips properties refl, refl)
