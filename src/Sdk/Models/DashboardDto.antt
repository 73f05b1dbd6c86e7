-- ===== src/Sdk/Models/DashboardDto.antt =====
-- ui/v1/src/lib/sdk/models/DashboardDto.ts
use ragbag.Common.{◌≡◌, refl, Bool, true, ◌&&◌, Option, some, List, [], ◌∷◌, if◌then◌else◌}
use ragbag.Sdk.Value.{Value, bool, arr, obj, end, field, Dates, is_nullish, prop, wire}
use ragbag.Sdk.Codec.{map_array, object, has_field, array_of, ModelTrips}
use ragbag.Sdk.Codec.Trips.{Trip, model-trips}
use ragbag.Sdk.Codec.Forms.{same}
use ragbag.Sdk.Codec.Rows.{bool_trip, models_trip}
use ragbag.Sdk.Models.DashboardSectionDto.{
  DashboardSectionDto, dashboard_section_dto_value, dashboard_section_dto_from_json,
  dashboard_section_dto_to_json, dashboard_section_dto-trips,
}

pub record DashboardDto : Type 0 where
  pub customized : Bool
  pub sections : List DashboardSectionDto

-- The object, with undefined for a property that is missing.
abbrev pub dashboard_dto_value : DashboardDto → Value
dashboard_dto_value d = obj (
    field "customized" (bool d.customized)
      (field "sections" (arr (array_of dashboard_section_dto_value d.sections)) end))

unfoldable pub instance_of_dashboard_dto : Value → Bool
instance_of_dashboard_dto v = has_field v "customized" && has_field v "sections"

unfoldable pub dashboard_dto_from_json : (dates : Dates) → Value → Option Value
dashboard_dto_from_json dates json =
    if is_nullish json
    then some json
    else object (
        ("customized", same (prop json "customized"))
        ∷ ("sections", map_array (dashboard_section_dto_from_json dates) (prop json "sections"))
        ∷ [])

unfoldable pub dashboard_dto_to_json : (dates : Dates) → Value → Option Value
dashboard_dto_to_json dates v =
    if is_nullish v
    then some v
    else object (
        ("customized", same (prop v "customized"))
        ∷ ("sections", map_array (dashboard_section_dto_to_json dates) (prop v "sections"))
        ∷ [])

-- Sent and read back, a `DashboardDto` is what it was, and it passes the test for the model.
pub dashboard_dto-trips :
    (dates : Dates) (d : DashboardDto)
    → ModelTrips dates
        (dashboard_dto_to_json dates)
        (dashboard_dto_from_json dates)
        (dashboard_dto_value d)
      × (instance_of_dashboard_dto (dashboard_dto_value d) ≡ true)
unfolding dashboard_dto_to_json dashboard_dto_from_json instance_of_dashboard_dto wire
dashboard_dto-trips dates d =
    let properties : List (Trip dates) =
      bool_trip "customized" d.customized
      ∷ models_trip "sections" dashboard_section_dto_value (dashboard_section_dto_to_json dates)
          (dashboard_section_dto_from_json dates) (λ x. (dashboard_section_dto-trips dates x).0)
          d.sections
      ∷ [] in
    (model-trips properties refl, refl)
