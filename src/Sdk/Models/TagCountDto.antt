-- ===== src/Sdk/Models/TagCountDto.antt =====
-- ui/v1/src/lib/sdk/models/TagCountDto.ts
use ragbag.Common.{
  ℕ, ◌≡◌, refl, String, Bool, true, ◌&&◌, Option, some, List, [], ◌∷◌, if◌then◌else◌,
}
use ragbag.Sdk.Value.{Value, num, text, obj, end, field, Dates, is_nullish, prop, wire}
use ragbag.Sdk.Codec.{object, has_field, ModelTrips}
use ragbag.Sdk.Codec.Trips.{Trip, model-trips}
use ragbag.Sdk.Codec.Forms.{same}
use ragbag.Sdk.Codec.Rows.{text_trip, num_trip}

pub record TagCountDto : Type 0 where
  pub tag : String
  pub count : ℕ

-- The object, with undefined for a property that is missing.
abbrev pub tag_count_dto_value : TagCountDto → Value
tag_count_dto_value d = obj (field "tag" (text d.tag) (field "count" (num d.count) end))

unfoldable pub instance_of_tag_count_dto : Value → Bool
instance_of_tag_count_dto v = has_field v "tag" && has_field v "count"

unfoldable pub tag_count_dto_from_json : Value → Option Value
tag_count_dto_from_json json =
    if is_nullish json
    then some json
    else object (("tag", same (prop json "tag")) ∷ ("count", same (prop json "count")) ∷ [])

unfoldable pub tag_count_dto_to_json : Value → Option Value
tag_count_dto_to_json v =
    if is_nullish v
    then some v
    else object (("tag", same (prop v "tag")) ∷ ("count", same (prop v "count")) ∷ [])

-- Sent and read back, a `TagCountDto` is what it was, and it passes the test for the model.
pub tag_count_dto-trips :
    (dates : Dates) (d : TagCountDto)
    → ModelTrips dates tag_count_dto_to_json tag_count_dto_from_json (tag_count_dto_value d)
      × (instance_of_tag_count_dto (tag_count_dto_value d) ≡ true)
unfolding tag_count_dto_to_json tag_count_dto_from_json instance_of_tag_count_dto wire
tag_count_dto-trips dates d =
    let properties : List (Trip dates) = text_trip "tag" d.tag ∷ num_trip "count" d.count ∷ [] in
    (model-trips properties refl, refl)
