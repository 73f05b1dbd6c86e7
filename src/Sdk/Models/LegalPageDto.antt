-- ===== src/Sdk/Models/LegalPageDto.antt =====
-- ui/v1/src/lib/sdk/models/LegalPageDto.ts
use ragbag.Common.{◌≡◌, refl, String, Bool, true, ◌&&◌, Option, some, List, [], ◌∷◌, if◌then◌else◌}
use ragbag.Sdk.Value.{Value, text, obj, end, field, Dates, is_nullish, prop, wire}
use ragbag.Sdk.Codec.{object, has_field, ModelTrips}
use ragbag.Sdk.Codec.Trips.{Trip, model-trips}
use ragbag.Sdk.Codec.Forms.{same}
use ragbag.Sdk.Codec.Rows.{text_trip}

pub record LegalPageDto : Type 0 where
  pub page : String
  pub title : String
  pub html : String

-- The object, with undefined for a property that is missing.
abbrev pub legal_page_dto_value : LegalPageDto → Value
legal_page_dto_value d =
    obj (field "page" (text d.page) (field "title" (text d.title) (field "html" (text d.html) end)))

unfoldable pub instance_of_legal_page_dto : Value → Bool
instance_of_legal_page_dto v = has_field v "page" && has_field v "title" && has_field v "html"

unfoldable pub legal_page_dto_from_json : Value → Option Value
legal_page_dto_from_json json =
    if is_nullish json
    then some json
    else object (
        ("page", same (prop json "page"))
        ∷ ("title", same (prop json "title"))
        ∷ ("html", same (prop json "html"))
        ∷ [])

unfoldable pub legal_page_dto_to_json : Value → Option Value
legal_page_dto_to_json v =
    if is_nullish v
    then some v
    else object (
        ("page", same (prop v "page"))
        ∷ ("title", same (prop v "title"))
        ∷ ("html", same (prop v "html"))
        ∷ [])

-- Sent and read back, a `LegalPageDto` is what it was, and it passes the test for the model.
pub legal_page_dto-trips :
    (dates : Dates) (d : LegalPageDto)
    → ModelTrips dates legal_page_dto_to_json legal_page_dto_from_json (legal_page_dto_value d)
      × (instance_of_legal_page_dto (legal_page_dto_value d) ≡ true)
unfolding legal_page_dto_to_json legal_page_dto_from_json instance_of_legal_page_dto wire
legal_page_dto-trips dates d =
    let properties : List (Trip dates) =
      text_trip "page" d.page ∷ text_trip "title" d.title ∷ text_trip "html" d.html ∷ [] in
    (model-trips properties refl, refl)
