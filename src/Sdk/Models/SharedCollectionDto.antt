-- ===== src/Sdk/Models/SharedCollectionDto.antt =====
-- ui/v1/src/lib/sdk/models/SharedCollectionDto.ts
use ragbag.Common.{◌≡◌, refl, String, Bool, true, ◌&&◌, Option, some, List, [], ◌∷◌, if◌then◌else◌}
use ragbag.Sdk.Value.{Value, text, arr, obj, end, field, Dates, is_nullish, prop, wire}
use ragbag.Sdk.Codec.{optional, map_array, object, has_field, or_undefined, array_of, ModelTrips}
use ragbag.Sdk.Codec.Trips.{Trip, model-trips}
use ragbag.Sdk.Codec.Forms.{same}
use ragbag.Sdk.Codec.Rows.{text_trip, optional_text_trip, models_trip}
use ragbag.Sdk.Models.SharedBookmarkDto.{
  SharedBookmarkDto, shared_bookmark_dto_value, shared_bookmark_dto_from_json,
  shared_bookmark_dto_to_json, shared_bookmark_dto-trips,
}
use ragbag.Sdk.Models.SharedCollectionRefDto.{
  SharedCollectionRefDto, shared_collection_ref_dto_value, shared_collection_ref_dto_from_json,
  shared_collection_ref_dto_to_json, shared_collection_ref_dto-trips,
}

pub record SharedCollectionDto : Type 0 where
  pub id : String
  pub name : String
  pub description : Option String
  pub path : List SharedCollectionRefDto
  pub children : List SharedCollectionRefDto
  pub bookmarks : List SharedBookmarkDto

-- The object, with undefined for a property that is missing.
abbrev pub shared_collection_dto_value : SharedCollectionDto → Value
shared_collection_dto_value d = obj (
    field "id" (text d.id) (
      field "name" (text d.name) (
        field "description" (or_undefined text d.description) (
          field "path" (arr (array_of shared_collection_ref_dto_value d.path)) (
            field "children" (arr (array_of shared_collection_ref_dto_value d.children))
              (field "bookmarks" (arr (array_of shared_bookmark_dto_value d.bookmarks)) end))))))

unfoldable pub instance_of_shared_collection_dto : Value → Bool
instance_of_shared_collection_dto v =
    has_field v "id"
    && has_field v "name"
    && has_field v "path"
    && has_field v "children"
    && has_field v "bookmarks"

unfoldable pub shared_collection_dto_from_json : (dates : Dates) → Value → Option Value
shared_collection_dto_from_json dates json =
    if is_nullish json
    then some json
    else object (
        ("id", same (prop json "id"))
        ∷ ("name", same (prop json "name"))
        ∷ ("description", optional same (prop json "description"))
        ∷ ("path", map_array shared_collection_ref_dto_from_json (prop json "path"))
        ∷ ("children", map_array shared_collection_ref_dto_from_json (prop json "children"))
        ∷ ("bookmarks", map_array (shared_bookmark_dto_from_json dates) (prop json "bookmarks"))
        ∷ [])

unfoldable pub shared_collection_dto_to_json : (dates : Dates) → Value → Option Value
shared_collection_dto_to_json dates v =
    if is_nullish v
    then some v
    else object (
        ("id", same (prop v "id"))
        ∷ ("name", same (prop v "name"))
        ∷ ("description", same (prop v "description"))
        ∷ ("path", map_array shared_collection_ref_dto_to_json (prop v "path"))
        ∷ ("children", map_array shared_collection_ref_dto_to_json (prop v "children"))
        ∷ ("bookmarks", map_array (shared_bookmark_dto_to_json dates) (prop v "bookmarks"))
        ∷ [])

-- Sent and read back, a `SharedCollectionDto` is what it was, and it passes the test for the model.
pub shared_collection_dto-trips :
    (dates : Dates) (d : SharedCollectionDto)
    → ModelTrips dates
        (shared_collection_dto_to_json dates)
        (shared_collection_dto_from_json dates)
        (shared_collection_dto_value d)
      × (instance_of_shared_collection_dto (shared_collection_dto_value d) ≡ true)
unfolding shared_collection_dto_to_json shared_collection_dto_from_json
    instance_of_shared_collection_dto wire
shared_collection_dto-trips dates d =
    let properties : List (Trip dates) =
      text_trip "id" d.id
      ∷ text_trip "name" d.name
      ∷ optional_text_trip "description" d.description
      ∷ models_trip "path" shared_collection_ref_dto_value shared_collection_ref_dto_to_json
          shared_collection_ref_dto_from_json (λ x. (shared_collection_ref_dto-trips dates x).0)
          d.path
      ∷ models_trip "children" shared_collection_ref_dto_value shared_collection_ref_dto_to_json
          shared_collection_ref_dto_from_json (λ x. (shared_collection_ref_dto-trips dates x).0)
          d.children
      ∷ models_trip "bookmarks" shared_bookmark_dto_value (shared_bookmark_dto_to_json dates)
          (shared_bookmark_dto_from_json dates) (λ x. (shared_bookmark_dto-trips dates x).0)
          d.bookmarks
      ∷ [] in
    (model-trips properties refl, refl)
