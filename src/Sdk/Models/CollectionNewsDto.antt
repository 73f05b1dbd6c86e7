-- ===== src/Sdk/Models/CollectionNewsDto.antt =====
-- ui/v1/src/lib/sdk/models/CollectionNewsDto.ts
use ragbag.Common.{
  ℕ, ◌≡◌, refl, String, Bool, true, ◌&&◌, Option, some, List, [], ◌∷◌, if◌then◌else◌,
}
use ragbag.Sdk.Value.{Value, num, text, obj, end, field, Dates, is_nullish, prop, wire}
use ragbag.Sdk.Codec.{parse_date_time, serialize_date_time, nullable, object, has_field, ModelTrips}
use ragbag.Sdk.Codec.Trips.{Trip, model-trips}
use ragbag.Sdk.Codec.Forms.{same, texts, instant}
use ragbag.Sdk.Codec.Rows.{text_trip, num_trip, texts_trip, date_trip}

pub record CollectionNewsDto : Type 0 where
  pub collection_id : String
  pub count : ℕ
  pub added_by : List String
  pub latest_at : ℕ

-- The object, with undefined for a property that is missing.
abbrev pub collection_news_dto_value : CollectionNewsDto → Value
collection_news_dto_value d = obj (
    field "collectionId" (text d.collection_id) (
      field "count" (num d.count)
        (field "addedBy" (texts d.added_by) (field "latestAt" (instant d.latest_at) end))))

unfoldable pub instance_of_collection_news_dto : Value → Bool
instance_of_collection_news_dto v =
    has_field v "collectionId"
    && has_field v "count"
    && has_field v "addedBy"
    && has_field v "latestAt"

unfoldable pub collection_news_dto_from_json : (dates : Dates) → Value → Option Value
collection_news_dto_from_json dates json =
    if is_nullish json
    then some json
    else object (
        ("collectionId", same (prop json "collectionId"))
        ∷ ("count", same (prop json "count"))
        ∷ ("addedBy", same (prop json "addedBy"))
        ∷ ("latestAt", nullable (parse_date_time dates) (prop json "latestAt"))
        ∷ [])

unfoldable pub collection_news_dto_to_json : (dates : Dates) → Value → Option Value
collection_news_dto_to_json dates v =
    if is_nullish v
    then some v
    else object (
        ("collectionId", same (prop v "collectionId"))
        ∷ ("count", same (prop v "count"))
        ∷ ("addedBy", same (prop v "addedBy"))
        ∷ ("latestAt", nullable (serialize_date_time dates) (prop v "latestAt"))
        ∷ [])

-- Sent and read back, a `CollectionNewsDto` is what it was, and it passes the test for the model.
pub collection_news_dto-trips :
    (dates : Dates) (d : CollectionNewsDto)
    → ModelTrips dates
        (collection_news_dto_to_json dates)
        (collection_news_dto_from_json dates)
        (collection_news_dto_value d)
      × (instance_of_collection_news_dto (collection_news_dto_value d) ≡ true)
unfolding collection_news_dto_to_json collection_news_dto_from_json instance_of_collection_news_dto
    wire
collection_news_dto-trips dates d =
    let properties : List (Trip dates) =
      text_trip "collectionId" d.collection_id
      ∷ num_trip "count" d.count
      ∷ texts_trip "addedBy" d.added_by
      ∷ date_trip "latestAt" d.latest_at
      ∷ [] in
    (model-trips properties refl, refl)
