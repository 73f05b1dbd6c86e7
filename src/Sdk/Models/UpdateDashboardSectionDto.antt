-- ===== src/Sdk/Models/UpdateDashboardSectionDto.antt =====
-- ui/v1/src/lib/sdk/models/UpdateDashboardSectionDto.ts
use ragbag.Common.{◌≡◌, refl, String, Bool, true, ◌&&◌, Option, some, List, [], ◌∷◌, if◌then◌else◌}
use ragbag.Sdk.Value.{Value, text, obj, end, field, Dates, is_nullish, prop, wire}
use ragbag.Sdk.Codec.{optional, object, has_field, or_undefined, ModelTrips}
use ragbag.Sdk.Codec.Trips.{Trip, model-trips}
use ragbag.Sdk.Codec.Forms.{same, texts}
use ragbag.Sdk.Codec.Rows.{trip, text_trip, optional_texts_trip}
use ragbag.Sdk.Models.DashboardSectionTypeEnum.{
  DashboardSectionTypeEnum, dashboard_section_type_enum_value,
  dashboard_section_type_enum_from_json, dashboard_section_type_enum_to_json,
  dashboard_section_type_enum-trips,
}

pub record UpdateDashboardSectionDto : Type 0 where
  pub title : String
  pub type : DashboardSectionTypeEnum
  pub bookmark_ids : Option (List String)

-- The object, with undefined for a property that is missing.
abbrev pub update_dashboard_section_dto_value : UpdateDashboardSectionDto → Value
update_dashboard_section_dto_value d = obj (
    field "title" (text d.title) (
      field "type" (dashboard_section_type_enum_value d.type)
        (field "bookmarkIds" (or_undefined texts d.bookmark_ids) end)))

unfoldable pub instance_of_update_dashboard_section_dto : Value → Bool
instance_of_update_dashboard_section_dto v = has_field v "title" && has_field v "type"

unfoldable pub update_dashboard_section_dto_from_json : Value → Option Value
update_dashboard_section_dto_from_json json =
    if is_nullish json
    then some json
    else object (
        ("title", same (prop json "title"))
        ∷ ("type", dashboard_section_type_enum_from_json (prop json "type"))
        ∷ ("bookmarkIds", optional same (prop json "bookmarkIds"))
        ∷ [])

unfoldable pub update_dashboard_section_dto_to_json : Value → Option Value
update_dashboard_section_dto_to_json v =
    if is_nullish v
    then some v
    else object (
        ("title", same (prop v "title"))
        ∷ ("type", dashboard_section_type_enum_to_json (prop v "type"))
        ∷ ("bookmarkIds", same (prop v "bookmarkIds"))
        ∷ [])

-- Sent and read back, a `UpdateDashboardSectionDto` is what it was, and it passes the test for the model.
pub update_dashboard_section_dto-trips :
    (dates : Dates) (d : UpdateDashboardSectionDto)
    → ModelTrips dates update_dashboard_section_dto_to_json update_dashboard_section_dto_from_json
        (update_dashboard_section_dto_value d)
      × (instance_of_update_dashboard_section_dto (update_dashboard_section_dto_value d) ≡ true)
unfolding update_dashboard_section_dto_to_json update_dashboard_section_dto_from_json
    instance_of_update_dashboard_section_dto wire
update_dashboard_section_dto-trips dates d =
    let properties : List (Trip dates) =
      text_trip "title" d.title
      ∷ trip "type" "type" dashboard_section_type_enum_to_json dashboard_section_type_enum_from_json
          (dashboard_section_type_enum_value d.type)
          (dashboard_section_type_enum-trips dates d.type)
      ∷ optional_texts_trip "bookmarkIds" d.bookmark_ids
      ∷ [] in
    (model-trips properties refl, refl)
