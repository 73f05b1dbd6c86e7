-- ===== src/Sdk/Models/TrashedCollectionDto.antt =====
-- ui/v1/src/lib/sdk/models/TrashedCollectionDto.ts
use ragbag.Common.{
  ℕ, ◌≡◌, refl, String, Bool, true, ◌&&◌, Option, some, List, [], ◌∷◌, if◌then◌else◌,
}
use ragbag.Sdk.Value.{Value, num, text, obj, end, field, Dates, is_nullish, prop, wire}
use ragbag.Sdk.Codec.{
  parse_date_time, serialize_date_time, optional, nullable, object, has_field, or_undefined,
  ModelTrips,
}
use ragbag.Sdk.Codec.Trips.{Trip, model-trips}
use ragbag.Sdk.Codec.Forms.{same, instant}
use ragbag.Sdk.Codec.Rows.{text_trip, num_trip, date_trip, optional_text_trip}

pub record TrashedCollectionDto : Type 0 where
  pub id : String
  pub name : String
  pub parent_name : Option String
  pub bookmark_count : ℕ
  pub child_count : ℕ
  pub deleted_at : ℕ
  pub deleted_by : Option String

-- The object, with undefined for a property that is missing.
abbrev pub trashed_collection_dto_value : TrashedCollectionDto → Value
trashed_collection_dto_value d = obj (
    field "id" (text d.id) (
      field "name" (text d.name) (
        field "parentName" (or_undefined text d.parent_name) (
          field "bookmarkCount" (num d.bookmark_count) (
            field "childCount" (num d.child_count) (
              field "deletedAt" (instant d.deleted_at)
                (field "deletedBy" (or_undefined text d.deleted_by) end)))))))

unfoldable pub instance_of_trashed_collection_dto : Value → Bool
instance_of_trashed_collection_dto v =
    has_field v "id"
    && has_field v "name"
    && has_field v "bookmarkCount"
    && has_field v "childCount"
    && has_field v "deletedAt"

unfoldable pub trashed_collection_dto_from_json : (dates : Dates) → Value → Option Value
trashed_collection_dto_from_json dates json =
    if is_nullish json
    then some json
    else object (
        ("id", same (prop json "id"))
        ∷ ("name", same (prop json "name"))
        ∷ ("parentName", optional same (prop json "parentName"))
        ∷ ("bookmarkCount", same (prop json "bookmarkCount"))
        ∷ ("childCount", same (prop json "childCount"))
        ∷ ("deletedAt", nullable (parse_date_time dates) (prop json "deletedAt"))
        ∷ ("deletedBy", optional same (prop json "deletedBy"))
        ∷ [])

unfoldable pub trashed_collection_dto_to_json : (dates : Dates) → Value → Option Value
trashed_collection_dto_to_json dates v =
    if is_nullish v
    then some v
    else object (
        ("id", same (prop v "id"))
        ∷ ("name", same (prop v "name"))
        ∷ ("parentName", same (prop v "parentName"))
        ∷ ("bookmarkCount", same (prop v "bookmarkCount"))
        ∷ ("childCount", same (prop v "childCount"))
        ∷ ("deletedAt", nullable (serialize_date_time dates) (prop v "deletedAt"))
        ∷ ("deletedBy", same (prop v "deletedBy"))
        ∷ [])

-- Sent and read back, a `TrashedCollectionDto` is what it was, and it passes the test for the model.
pub trashed_collection_dto-trips :
    (dates : Dates) (d : TrashedCollectionDto)
    → ModelTrips dates
        (trashed_collection_dto_to_json dates)
        (trashed_collection_dto_from_json dates)
        (trashed_collection_dto_value d)
      × (instance_of_trashed_collection_dto (trashed_collection_dto_value d) ≡ true)
unfolding trashed_collection_dto_to_json trashed_collection_dto_from_json
    instance_of_trashed_collection_dto wire
trashed_collection_dto-trips dates d =
    let properties : List (Trip dates) =
      text_trip "id" d.id
      ∷ text_trip "name" d.name
      ∷ optional_text_trip "parentName" d.parent_name
      ∷ num_trip "bookmarkCount" d.bookmark_count
      ∷ num_trip "childCount" d.child_count
      ∷ date_trip "deletedAt" d.deleted_at
      ∷ optional_text_trip "deletedBy" d.deleted_by
      ∷ [] in
    (model-trips properties refl, refl)
