-- ===== src/Sdk/Models/SharedCollectionRefDto.antt =====
-- ui/v1/src/lib/sdk/models/SharedCollectionRefDto.ts
use ragbag.Common.{
  ℕ, ◌≡◌, refl, String, Bool, true, ◌&&◌, Option, some, List, [], ◌∷◌, if◌then◌else◌,
}
use ragbag.Sdk.Value.{Value, num, text, obj, end, field, Dates, is_nullish, prop, wire}
use ragbag.Sdk.Codec.{object, has_field, ModelTrips}
use ragbag.Sdk.Codec.Trips.{Trip, model-trips}
use ragbag.Sdk.Codec.Forms.{same}
use ragbag.Sdk.Codec.Rows.{text_trip, num_trip}

pub record SharedCollectionRefDto : Type 0 where
  pub id : String
  pub name : String
  pub bookmark_count : ℕ
  pub child_count : ℕ

-- The object, with undefined for a property that is missing.
abbrev pub shared_collection_ref_dto_value : SharedCollectionRefDto → Value
shared_collection_ref_dto_value d = obj (
    field "id" (text d.id) (
      field "name" (text d.name) (
        field "bookmarkCount" (num d.bookmark_count) (field "childCount" (num d.child_count) end))))

unfoldable pub instance_of_shared_collection_ref_dto : Value → Bool
instance_of_shared_collection_ref_dto v =
    has_field v "id"
    && has_field v "name"
    && has_field v "bookmarkCount"
    && has_field v "childCount"

unfoldable pub shared_collection_ref_dto_from_json : Value → Option Value
shared_collection_ref_dto_from_json json =
    if is_nullish json
    then some json
    else object (
        ("id", same (prop json "id"))
        ∷ ("name", same (prop json "name"))
        ∷ ("bookmarkCount", same (prop json "bookmarkCount"))
        ∷ ("childCount", same (prop json "childCount"))
        ∷ [])

unfoldable pub shared_collection_ref_dto_to_json : Value → Option Value
shared_collection_ref_dto_to_json v =
    if is_nullish v
    then some v
    else object (
        ("id", same (prop v "id"))
        ∷ ("name", same (prop v "name"))
        ∷ ("bookmarkCount", same (prop v "bookmarkCount"))
        ∷ ("childCount", same (prop v "childCount"))
        ∷ [])

-- Sent and read back, a `SharedCollectionRefDto` is what it was, and it passes the test for the model.
pub shared_collection_ref_dto-trips :
    (dates : Dates) (d : SharedCollectionRefDto)
    → ModelTrips dates shared_collection_ref_dto_to_json shared_collection_ref_dto_from_json
        (shared_collection_ref_dto_value d)
      × (instance_of_shared_collection_ref_dto (shared_collection_ref_dto_value d) ≡ true)
unfolding shared_collection_ref_dto_to_json shared_collection_ref_dto_from_json
    instance_of_shared_collection_ref_dto wire
shared_collection_ref_dto-trips dates d =
    let properties : List (Trip dates) =
      text_trip "id" d.id
      ∷ text_trip "name" d.name
      ∷ num_trip "bookmarkCount" d.bookmark_count
      ∷ num_trip "childCount" d.child_count
      ∷ [] in
    (model-trips properties refl, refl)
