-- ===== src/Sdk/Models/BookmarkMetadataDto.antt =====
-- ui/v1/src/lib/sdk/models/BookmarkMetadataDto.ts
use ragbag.Common.{◌≡◌, refl, String, Bool, true, ◌&&◌, Option, some, List, [], ◌∷◌, if◌then◌else◌}
use ragbag.Sdk.Value.{Value, bool, text, obj, end, field, Dates, is_nullish, prop, wire}
use ragbag.Sdk.Codec.{optional, object, has_field, or_undefined, ModelTrips}
use ragbag.Sdk.Codec.Trips.{Trip, model-trips}
use ragbag.Sdk.Codec.Forms.{same, texts}
use ragbag.Sdk.Codec.Rows.{text_trip, bool_trip, optional_text_trip, optional_texts_trip}

pub record BookmarkMetadataDto : Type 0 where
  pub url : String
  pub found : Bool
  pub title : Option String
  pub description : Option String
  pub og_image : Option String
  pub favicon : Option String
  pub canonical : Option String
  pub keywords : Option (List String)

-- The object, with undefined for a property that is missing.
abbrev pub bookmark_metadata_dto_value : BookmarkMetadataDto → Value
bookmark_metadata_dto_value d = obj (
    field "url" (text d.url) (
      field "found" (bool d.found) (
        field "title" (or_undefined text d.title) (
          field "description" (or_undefined text d.description) (
            field "ogImage" (or_undefined text d.og_image) (
              field "favicon" (or_undefined text d.favicon) (
                field "canonical" (or_undefined text d.canonical)
                  (field "keywords" (or_undefined texts d.keywords) end))))))))

unfoldable pub instance_of_bookmark_metadata_dto : Value → Bool
instance_of_bookmark_metadata_dto v = has_field v "url" && has_field v "found"

unfoldable pub bookmark_metadata_dto_from_json : Value → Option Value
bookmark_metadata_dto_from_json json =
    if is_nullish json
    then some json
    else object (
        ("url", same (prop json "url"))
        ∷ ("found", same (prop json "found"))
        ∷ ("title", optional same (prop json "title"))
        ∷ ("description", optional same (prop json "description"))
        ∷ ("ogImage", optional same (prop json "ogImage"))
        ∷ ("favicon", optional same (prop json "favicon"))
        ∷ ("canonical", optional same (prop json "canonical"))
        ∷ ("keywords", optional same (prop json "keywords"))
        ∷ [])

unfoldable pub bookmark_metadata_dto_to_json : Value → Option Value
bookmark_metadata_dto_to_json v =
    if is_nullish v
    then some v
    else object (
        ("url", same (prop v "url"))
        ∷ ("found", same (prop v "found"))
        ∷ ("title", same (prop v "title"))
        ∷ ("description", same (prop v "description"))
        ∷ ("ogImage", same (prop v "ogImage"))
        ∷ ("favicon", same (prop v "favicon"))
        ∷ ("canonical", same (prop v "canonical"))
        ∷ ("keywords", same (prop v "keywords"))
        ∷ [])

-- Sent and read back, a `BookmarkMetadataDto` is what it was, and it passes the test for the model.
pub bookmark_metadata_dto-trips :
    (dates : Dates) (d : BookmarkMetadataDto)
    → ModelTrips dates bookmark_metadata_dto_to_json bookmark_metadata_dto_from_json
        (bookmark_metadata_dto_value d)
      × (instance_of_bookmark_metadata_dto (bookmark_metadata_dto_value d) ≡ true)
unfolding bookmark_metadata_dto_to_json bookmark_metadata_dto_from_json
    instance_of_bookmark_metadata_dto wire
bookmark_metadata_dto-trips dates d =
    let properties : List (Trip dates) =
      text_trip "url" d.url
      ∷ bool_trip "found" d.found
      ∷ optional_text_trip "title" d.title
      ∷ optional_text_trip "description" d.description
      ∷ optional_text_trip "ogImage" d.og_image
      ∷ optional_text_trip "favicon" d.favicon
      ∷ optional_text_trip "canonical" d.canonical
      ∷ optional_texts_trip "keywords" d.keywords
      ∷ [] in
    (model-trips properties refl, refl)
