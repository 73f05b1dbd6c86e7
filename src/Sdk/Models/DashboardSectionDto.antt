-- ===== src/Sdk/Models/DashboardSectionDto.antt =====
-- ui/v1/src/lib/sdk/models/DashboardSectionDto.ts
use ragbag.Common.{◌≡◌, refl, String, Bool, true, ◌&&◌, Option, some, List, [], ◌∷◌, if◌then◌else◌}
use ragbag.Sdk.Value.{Value, text, arr, obj, end, field, Dates, is_nullish, prop, wire}
use ragbag.Sdk.Codec.{optional, map_array, object, has_field, or_undefined, array_of, ModelTrips}
use ragbag.Sdk.Codec.Trips.{Trip, model-trips}
use ragbag.Sdk.Codec.Forms.{same}
use ragbag.Sdk.Codec.Rows.{trip, text_trip, optional_text_trip, models_trip}
use ragbag.Sdk.Models.BookmarkDto.{
  BookmarkDto, bookmark_dto_value, bookmark_dto_from_json, bookmark_dto_to_json, bookmark_dto-trips,
}
use ragbag.Sdk.Models.DashboardSectionTypeEnum.{
  DashboardSectionTypeEnum, dashboard_section_type_enum_value,
  dashboard_section_type_enum_from_json, dashboard_section_type_enum_to_json,
  dashboard_section_type_enum-trips,
}

pub record DashboardSectionDto : Type 0 where
  pub id : Option String
  pub title : String
  pub type : DashboardSectionTypeEnum
  pub bookmarks : List BookmarkDto

-- The object, with undefined for a property that is missing.
abbrev pub dashboard_section_dto_value : DashboardSectionDto → Value
dashboard_section_dto_value d = obj (
    field "id" (or_undefined text d.id) (
      field "title" (text d.title) (
        field "type" (dashboard_section_type_enum_value d.type)
          (field "bookmarks" (arr (array_of bookmark_dto_value d.bookmarks)) end))))

unfoldable pub instance_of_dashboard_section_dto : Value → Bool
instance_of_dashboard_section_dto v =
    has_field v "title" && has_field v "type" && has_field v "bookmarks"

unfoldable pub dashboard_section_dto_from_json : (dates : Dates) → Value → Option Value
dashboard_section_dto_from_json dates json =
    if is_nullish json
    then some json
    else object (
        ("id", optional same (prop json "id"))
        ∷ ("title", same (prop json "title"))
        ∷ ("type", dashboard_section_type_enum_from_json (prop json "type"))
        ∷ ("bookmarks", map_array (bookmark_dto_from_json dates) (prop json "bookmarks"))
        ∷ [])

unfoldable pub dashboard_section_dto_to_json : (dates : Dates) → Value → Option Value
dashboard_section_dto_to_json dates v =
    if is_nullish v
    then some v
    else object (
        ("id", same (prop v "id"))
        ∷ ("title", same (prop v "title"))
        ∷ ("type", dashboard_section_type_enum_to_json (prop v "type"))
        ∷ ("bookmarks", map_array (bookmark_dto_to_json dates) (prop v "bookmarks"))
        ∷ [])

-- Sent and read back, a `DashboardSectionDto` is what it was, and it passes the test for the model.
pub dashboard_section_dto-trips :
    (dates : Dates) (d : DashboardSectionDto)
    → ModelTrips dates
        (dashboard_section_dto_to_json dates)
        (dashboard_section_dto_from_json dates)
        (dashboard_section_dto_value d)
      × (instance_of_dashboard_section_dto (dashboard_section_dto_value d) ≡ true)
unfolding dashboard_section_dto_to_json dashboard_section_dto_from_json
    instance_of_dashboard_section_dto wire
dashboard_section_dto-trips dates d =
    let properties : List (Trip dates) =
      optional_text_trip "id" d.id
      ∷ text_trip "title" d.title
      ∷ trip "type" "type" dashboard_section_type_enum_to_json dashboard_section_type_enum_from_json
          (dashboard_section_type_enum_value d.type)
          (dashboard_section_type_enum-trips dates d.type)
      ∷ models_trip "bookmarks" bookmark_dto_value (bookmark_dto_to_json dates)
          (bookmark_dto_from_json dates) (λ x. (bookmark_dto-trips dates x).0) d.bookmarks
      ∷ [] in
    (model-trips properties refl, refl)
