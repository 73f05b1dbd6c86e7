-- ===== src/Sdk/Models/CreateBookmarkDto.antt =====
-- ui/v1/src/lib/sdk/models/CreateBookmarkDto.ts
use ragbag.Common.{◌≡◌, refl, String, Bool, true, Option, some, List, [], ◌∷◌, if◌then◌else◌}
use ragbag.Sdk.Value.{Value, text, obj, end, field, Dates, is_nullish, prop, wire}
use ragbag.Sdk.Codec.{optional, object, has_field, or_undefined, ModelTrips}
use ragbag.Sdk.Codec.Trips.{Trip, model-trips}
use ragbag.Sdk.Codec.Forms.{same, texts}
use ragbag.Sdk.Codec.Rows.{text_trip, optional_text_trip, optional_texts_trip}

pub record CreateBookmarkDto : Type 0 where
  pub url : String
  pub title : Option String
  pub description : Option String
  pub tags : Option (List String)

-- The object, with undefined for a property that is missing.
abbrev pub create_bookmark_dto_value : CreateBookmarkDto → Value
create_bookmark_dto_value d = obj (
    field "url" (text d.url) (
      field "title" (or_undefined text d.title) (
        field "description" (or_undefined text d.description)
          (field "tags" (or_undefined texts d.tags) end))))

unfoldable pub instance_of_create_bookmark_dto : Value → Bool
instance_of_create_bookmark_dto v = has_field v "url"

unfoldable pub create_bookmark_dto_from_json : Value → Option Value
create_bookmark_dto_from_json json =
    if is_nullish json
    then some json
    else object (
        ("url", same (prop json "url"))
        ∷ ("title", optional same (prop json "title"))
        ∷ ("description", optional same (prop json "description"))
        ∷ ("tags", optional same (prop json "tags"))
        ∷ [])

unfoldable pub create_bookmark_dto_to_json : Value → Option Value
create_bookmark_dto_to_json v =
    if is_nullish v
    then some v
    else object (
        ("url", same (prop v "url"))
        ∷ ("title", same (prop v "title"))
        ∷ ("description", same (prop v "description"))
        ∷ ("tags", same (prop v "tags"))
        ∷ [])

-- Sent and read back, a `CreateBookmarkDto` is what it was, and it passes the test for the model.
pub create_bookmark_dto-trips :
    (dates : Dates) (d : CreateBookmarkDto)
    → ModelTrips dates create_bookmark_dto_to_json create_bookmark_dto_from_json
        (create_bookmark_dto_value d)
      × (instance_of_create_bookmark_dto (create_bookmark_dto_value d) ≡ true)
unfolding create_bookmark_dto_to_json create_bookmark_dto_from_json instance_of_create_bookmark_dto
    wire
create_bookmark_dto-trips dates d =
    let properties : List (Trip dates) =
      text_trip "url" d.url
      ∷ optional_text_trip "title" d.title
      ∷ optional_text_trip "description" d.description
      ∷ optional_texts_trip "tags" d.tags
      ∷ [] in
    (model-trips properties refl, refl)
