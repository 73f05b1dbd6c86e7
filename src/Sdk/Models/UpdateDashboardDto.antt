-- ===== src/Sdk/Models/UpdateDashboardDto.antt =====
-- ui/v1/src/lib/sdk/models/UpdateDashboardDto.ts
use ragbag.Common.{◌≡◌, refl, Bool, true, Option, some, List, [], ◌∷◌, if◌then◌else◌}
use ragbag.Sdk.Value.{Value, arr, obj, end, field, Dates, is_nullish, prop, wire}
use ragbag.Sdk.Codec.{map_array, object, has_field, array_of, ModelTrips}
use ragbag.Sdk.Codec.Trips.{Trip, model-trips}
use ragbag.Sdk.Codec.Rows.{models_trip}
use ragbag.Sdk.Models.UpdateDashboardSectionDto.{
  UpdateDashboardSectionDto, update_dashboard_section_dto_value,
  update_dashboard_section_dto_from_json, update_dashboard_section_dto_to_json,
  update_dashboard_section_dto-trips,
}

pub record UpdateDashboardDto : Type 0 where
  pub sections : List UpdateDashboardSectionDto

-- The object, with undefined for a property that is missing.
abbrev pub update_dashboard_dto_value : UpdateDashboardDto → Value
update_dashboard_dto_value d =
    obj (field "sections" (arr (array_of update_dashboard_section_dto_value d.sections)) end)

unfoldable pub instance_of_update_dashboard_dto : Value → Bool
instance_of_update_dashboard_dto v = has_field v "sections"

unfoldable pub update_dashboard_dto_from_json : Value → Option Value
update_dashboard_dto_from_json json =
    if is_nullish json
    then some json
    else object
        (("sections", map_array update_dashboard_section_dto_from_json (prop json "sections")) ∷ [])

unfoldable pub update_dashboard_dto_to_json : Value → Option Value
update_dashboard_dto_to_json v =
    if is_nullish v
    then some v
    else object
        (("sections", map_array update_dashboard_section_dto_to_json (prop v "sections")) ∷ [])

-- Sent and read back, a `UpdateDashboardDto` is what it was, and it passes the test for the model.
pub update_dashboard_dto-trips :
    (dates : Dates) (d : UpdateDashboardDto)
    → ModelTrips dates update_dashboard_dto_to_json update_dashboard_dto_from_json
        (update_dashboard_dto_value d)
      × (instance_of_update_dashboard_dto (update_dashboard_dto_value d) ≡ true)
unfolding update_dashboard_dto_to_json update_dashboard_dto_from_json
    instance_of_update_dashboard_dto wire
update_dashboard_dto-trips dates d =
    let properties : List (Trip dates) =
      models_trip "sections" update_dashboard_section_dto_value update_dashboard_section_dto_to_json
        update_dashboard_section_dto_from_json (λ x. (update_dashboard_section_dto-trips dates x).0)
        d.sections
      ∷ [] in
    (model-trips properties refl, refl)
