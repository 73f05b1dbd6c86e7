-- ===== src/Sdk/Models/BookmarkDto.antt =====
-- ui/v1/src/lib/sdk/models/BookmarkDto.ts
use ragbag.Common.{
  ℕ, ◌≡◌, refl, String, Bool, true, ◌&&◌, Option, some, List, [], ◌∷◌, if◌then◌else◌,
}
use ragbag.Sdk.Value.{Value, bool, text, arr, obj, end, field, Dates, is_nullish, prop, wire}
use ragbag.Sdk.Codec.{
  parse_date_time, serialize_date_time, optional, nullable, map_array, object, has_field,
  or_undefined, array_of, ModelTrips,
}
use ragbag.Sdk.Codec.Trips.{Trip, model-trips}
use ragbag.Sdk.Codec.Forms.{same, texts, instant}
use ragbag.Sdk.Codec.Rows.{
  text_trip, optional_text_trip, optional_bool_trip, optional_texts_trip, optional_date_trip,
  optional_models_trip,
}
use ragbag.Sdk.Models.ReactionDto.{
  ReactionDto, reaction_dto_value, reaction_dto_from_json, reaction_dto_to_json, reaction_dto-trips,
}

pub record BookmarkDto : Type 0 where
  pub id : String
  pub collection_id : Option String
  pub url : String
  pub title : Option String
  pub description : Option String
  pub tags : Option (List String)
  pub og_image : Option String
  pub favicon : Option String
  pub canonical : Option String
  pub created_at : Option ℕ
  pub created_by : Option String
  pub favorite : Option Bool
  pub custom_image_id : Option String
  pub custom_image_url : Option String
  pub image_hidden : Option Bool
  pub is_new : Option Bool
  pub reactions : Option (List ReactionDto)

-- The object, with undefined for a property that is missing.
abbrev pub bookmark_dto_value : BookmarkDto → Value
bookmark_dto_value d = obj (
    field "id" (text d.id) (
      field "collectionId" (or_undefined text d.collection_id) (
        field "url" (text d.url) (
          field "title" (or_undefined text d.title) (
            field "description" (or_undefined text d.description) (
              field "tags" (or_undefined texts d.tags) (
                field "ogImage" (or_undefined text d.og_image) (
                  field "favicon" (or_undefined text d.favicon) (
                    field "canonical" (or_undefined text d.canonical) (
                      field "createdAt" (or_undefined instant d.created_at) (
                        field "createdBy" (or_undefined text d.created_by) (
                          field "favorite" (or_undefined bool d.favorite) (
                            field "customImageId" (or_undefined text d.custom_image_id) (
                              field "customImageUrl" (or_undefined text d.custom_image_url) (
                                field "imageHidden" (or_undefined bool d.image_hidden) (
                                  field "isNew" (or_undefined bool d.is_new) (
                                    field "reactions"
                                      (or_undefined (λ xs. arr (array_of reaction_dto_value xs))
                                        d.reactions)
                                      end)))))))))))))))))

unfoldable pub instance_of_bookmark_dto : Value → Bool
instance_of_bookmark_dto v = has_field v "id" && has_field v "url"

unfoldable pub bookmark_dto_from_json : (dates : Dates) → Value → Option Value
bookmark_dto_from_json dates json =
    if is_nullish json
    then some json
    else object (
        ("id", same (prop json "id"))
        ∷ ("collectionId", optional same (prop json "collectionId"))
        ∷ ("url", same (prop json "url"))
        ∷ ("title", optional same (prop json "title"))
        ∷ ("description", optional same (prop json "description"))
        ∷ ("tags", optional same (prop json "tags"))
        ∷ ("ogImage", optional same (prop json "ogImage"))
        ∷ ("favicon", optional same (prop json "favicon"))
        ∷ ("canonical", optional same (prop json "canonical"))
        ∷ ("createdAt", optional (parse_date_time dates) (prop json "createdAt"))
        ∷ ("createdBy", optional same (prop json "createdBy"))
        ∷ ("favorite", optional same (prop json "favorite"))
        ∷ ("customImageId", optional same (prop json "customImageId"))
        ∷ ("customImageUrl", optional same (prop json "customImageUrl"))
        ∷ ("imageHidden", optional same (prop json "imageHidden"))
        ∷ ("isNew", optional same (prop json "isNew"))
        ∷ ("reactions", optional (map_array reaction_dto_from_json) (prop json "reactions"))
        ∷ [])

unfoldable pub bookmark_dto_to_json : (dates : Dates) → Value → Option Value
bookmark_dto_to_json dates v =
    if is_nullish v
    then some v
    else object (
        ("id", same (prop v "id"))
        ∷ ("collectionId", same (prop v "collectionId"))
        ∷ ("url", same (prop v "url"))
        ∷ ("title", same (prop v "title"))
        ∷ ("description", same (prop v "description"))
        ∷ ("tags", same (prop v "tags"))
        ∷ ("ogImage", same (prop v "ogImage"))
        ∷ ("favicon", same (prop v "favicon"))
        ∷ ("canonical", same (prop v "canonical"))
        ∷ ("createdAt", nullable (serialize_date_time dates) (prop v "createdAt"))
        ∷ ("createdBy", same (prop v "createdBy"))
        ∷ ("favorite", same (prop v "favorite"))
        ∷ ("customImageId", same (prop v "customImageId"))
        ∷ ("customImageUrl", same (prop v "customImageUrl"))
        ∷ ("imageHidden", same (prop v "imageHidden"))
        ∷ ("isNew", same (prop v "isNew"))
        ∷ ("reactions", optional (map_array reaction_dto_to_json) (prop v "reactions"))
        ∷ [])

-- Sent and read back, a `BookmarkDto` is what it was, and it passes the test for the model.
pub bookmark_dto-trips :
    (dates : Dates) (d : BookmarkDto)
    → ModelTrips dates
        (bookmark_dto_to_json dates)
        (bookmark_dto_from_json dates)
        (bookmark_dto_value d)
      × (instance_of_bookmark_dto (bookmark_dto_value d) ≡ true)
unfolding bookmark_dto_to_json bookmark_dto_from_json instance_of_bookmark_dto wire
bookmark_dto-trips dates d =
    let properties : List (Trip dates) =
      text_trip "id" d.id
      ∷ optional_text_trip "collectionId" d.collection_id
      ∷ text_trip "url" d.url
      ∷ optional_text_trip "title" d.title
      ∷ optional_text_trip "description" d.description
      ∷ optional_texts_trip "tags" d.tags
      ∷ optional_text_trip "ogImage" d.og_image
      ∷ optional_text_trip "favicon" d.favicon
      ∷ optional_text_trip "canonical" d.canonical
      ∷ optional_date_trip "createdAt" d.created_at
      ∷ optional_text_trip "createdBy" d.created_by
      ∷ optional_bool_trip "favorite" d.favorite
      ∷ optional_text_trip "customImageId" d.custom_image_id
      ∷ optional_text_trip "customImageUrl" d.custom_image_url
      ∷ optional_bool_trip "imageHidden" d.image_hidden
      ∷ optional_bool_trip "isNew" d.is_new
      ∷ optional_models_trip "reactions" reaction_dto_value reaction_dto_to_json
          reaction_dto_from_json (λ x. (reaction_dto-trips dates x).0) d.reactions
      ∷ [] in
    (model-trips properties refl, refl)
