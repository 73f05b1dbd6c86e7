-- ===== src/Sdk/Models/SharedBookmarkDto.antt =====
-- ui/v1/src/lib/sdk/models/SharedBookmarkDto.ts
use ragbag.Common.{
  ℕ, ◌≡◌, refl, String, Bool, true, ◌&&◌, Option, some, List, [], ◌∷◌, if◌then◌else◌,
}
use ragbag.Sdk.Value.{Value, text, obj, end, field, Dates, is_nullish, prop, wire}
use ragbag.Sdk.Codec.{
  parse_date_time, serialize_date_time, optional, nullable, object, has_field, or_undefined,
  ModelTrips,
}
use ragbag.Sdk.Codec.Trips.{Trip, model-trips}
use ragbag.Sdk.Codec.Forms.{same, texts, instant}
use ragbag.Sdk.Codec.Rows.{text_trip, texts_trip, optional_text_trip, optional_date_trip}

pub record SharedBookmarkDto : Type 0 where
  pub id : String
  pub url : String
  pub title : Option String
  pub description : Option String
  pub tags : List String
  pub og_image : Option String
  pub custom_image_id : Option String
  pub favicon : Option String
  pub created_at : Option ℕ

-- The object, with undefined for a property that is missing.
abbrev pub shared_bookmark_dto_value : SharedBookmarkDto → Value
shared_bookmark_dto_value d = obj (
    field "id" (text d.id) (
      field "url" (text d.url) (
        field "title" (or_undefined text d.title) (
          field "description" (or_undefined text d.description) (
            field "tags" (texts d.tags) (
              field "ogImage" (or_undefined text d.og_image) (
                field "customImageId" (or_undefined text d.custom_image_id) (
                  field "favicon" (or_undefined text d.favicon)
                    (field "createdAt" (or_undefined instant d.created_at) end)))))))))

unfoldable pub instance_of_shared_bookmark_dto : Value → Bool
instance_of_shared_bookmark_dto v = has_field v "id" && has_field v "url" && has_field v "tags"

unfoldable pub shared_bookmark_dto_from_json : (dates : Dates) → Value → Option Value
shared_bookmark_dto_from_json dates json =
    if is_nullish json
    then some json
    else object (
        ("id", same (prop json "id"))
        ∷ ("url", same (prop json "url"))
        ∷ ("title", optional same (prop json "title"))
        ∷ ("description", optional same (prop json "description"))
        ∷ ("tags", same (prop json "tags"))
        ∷ ("ogImage", optional same (prop json "ogImage"))
        ∷ ("customImageId", optional same (prop json "customImageId"))
        ∷ ("favicon", optional same (prop json "favicon"))
        ∷ ("createdAt", optional (parse_date_time dates) (prop json "createdAt"))
        ∷ [])

unfoldable pub shared_bookmark_dto_to_json : (dates : Dates) → Value → Option Value
shared_bookmark_dto_to_json dates v =
    if is_nullish v
    then some v
    else object (
        ("id", same (prop v "id"))
        ∷ ("url", same (prop v "url"))
        ∷ ("title", same (prop v "title"))
        ∷ ("description", same (prop v "description"))
        ∷ ("tags", same (prop v "tags"))
        ∷ ("ogImage", same (prop v "ogImage"))
        ∷ ("customImageId", same (prop v "customImageId"))
        ∷ ("favicon", same (prop v "favicon"))
        ∷ ("createdAt", nullable (serialize_date_time dates) (prop v "createdAt"))
        ∷ [])

-- Sent and read back, a `SharedBookmarkDto` is what it was, and it passes the test for the model.
pub shared_bookmark_dto-trips :
    (dates : Dates) (d : SharedBookmarkDto)
    → ModelTrips dates
        (shared_bookmark_dto_to_json dates)
        (shared_bookmark_dto_from_json dates)
        (shared_bookmark_dto_value d)
      × (instance_of_shared_bookmark_dto (shared_bookmark_dto_value d) ≡ true)
unfolding shared_bookmark_dto_to_json shared_bookmark_dto_from_json instance_of_shared_bookmark_dto
    wire
shared_bookmark_dto-trips dates d =
    let properties : List (Trip dates) =
      text_trip "id" d.id
      ∷ text_trip "url" d.url
      ∷ optional_text_trip "title" d.title
      ∷ optional_text_trip "description" d.description
      ∷ texts_trip "tags" d.tags
      ∷ optional_text_trip "ogImage" d.og_image
      ∷ optional_text_trip "customImageId" d.custom_image_id
      ∷ optional_text_trip "favicon" d.favicon
      ∷ optional_date_trip "createdAt" d.created_at
      ∷ [] in
    (model-trips properties refl, refl)
