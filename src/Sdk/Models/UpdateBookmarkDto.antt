-- ===== src/Sdk/Models/UpdateBookmarkDto.antt =====
-- ui/v1/src/lib/sdk/models/UpdateBookmarkDto.ts
use ragbag.Common.{◌≡◌, refl, String, Bool, true, Option, some, List, [], ◌∷◌, if◌then◌else◌}
use ragbag.Sdk.Value.{Value, bool, text, obj, end, field, Dates, is_nullish, prop, wire}
use ragbag.Sdk.Codec.{optional, object, has_field, or_undefined, ModelTrips}
use ragbag.Sdk.Codec.Trips.{Trip, model-trips}
use ragbag.Sdk.Codec.Forms.{same, texts}
use ragbag.Sdk.Codec.Rows.{text_trip, optional_text_trip, optional_bool_trip, optional_texts_trip}

pub record UpdateBookmarkDto : Type 0 where
  pub url : String
  pub title : Option String
  pub description : Option String
  pub tags : Option (List String)
  pub collection_id : Option String
  pub custom_image_url : Option String
  pub image_hidden : Option Bool

-- The object, with undefined for a property that is missing.
abbrev pub update_bookmark_dto_value : UpdateBookmarkDto → Value
update_bookmark_dto_value d = obj (
    field "url" (text d.url) (
      field "title" (or_undefined text d.title) (
        field "description" (or_undefined text d.description) (
          field "tags" (or_undefined texts d.tags) (
            field "collectionId" (or_undefined text d.collection_id) (
              field "customImageUrl" (or_undefined text d.custom_image_url)
                (field "imageHidden" (or_undefined bool d.image_hidden) end)))))))

unfoldable pub instance_of_update_bookmark_dto : Value → Bool
instance_of_update_bookmark_dto v = has_field v "url"

unfoldable pub update_bookmark_dto_from_json : Value → Option Value
update_bookmark_dto_from_json json =
    if is_nullish json
    then some json
    else object (
        ("url", same (prop json "url"))
        ∷ ("title", optional same (prop json "title"))
        ∷ ("description", optional same (prop json "description"))
        ∷ ("tags", optional same (prop json "tags"))
        ∷ ("collectionId", optional same (prop json "collectionId"))
        ∷ ("customImageUrl", optional same (prop json "customImageUrl"))
        ∷ ("imageHidden", optional same (prop json "imageHidden"))
        ∷ [])

unfoldable pub update_bookmark_dto_to_json : Value → Option Value
update_bookmark_dto_to_json v =
    if is_nullish v
    then some v
    else object (
        ("url", same (prop v "url"))
        ∷ ("title", same (prop v "title"))
        ∷ ("description", same (prop v "description"))
        ∷ ("tags", same (prop v "tags"))
        ∷ ("collectionId", same (prop v "collectionId"))
        ∷ ("customImageUrl", same (prop v "customImageUrl"))
        ∷ ("imageHidden", same (prop v "imageHidden"))
        ∷ [])

-- Sent and read back, a `UpdateBookmarkDto` is what it was, and it passes the test for the model.
pub update_bookmark_dto-trips :
    (dates : Dates) (d : UpdateBookmarkDto)
    → ModelTrips dates update_bookmark_dto_to_json update_bookmark_dto_from_json
        (update_bookmark_dto_value d)
      × (instance_of_update_bookmark_dto (update_bookmark_dto_value d) ≡ true)
unfolding update_bookmark_dto_to_json update_bookmark_dto_from_json instance_of_update_bookmark_dto
    wire
update_bookmark_dto-trips dates d =
    let properties : List (Trip dates) =
      text_trip "url" d.url
      ∷ optional_text_trip "title" d.title
      ∷ optional_text_trip "description" d.description
      ∷ optional_texts_trip "tags" d.tags
      ∷ optional_text_trip "collectionId" d.collection_id
      ∷ optional_text_trip "customImageUrl" d.custom_image_url
      ∷ optional_bool_trip "imageHidden" d.image_hidden
      ∷ [] in
    (model-trips properties refl, refl)
