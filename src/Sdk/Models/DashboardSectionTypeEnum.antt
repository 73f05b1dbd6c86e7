-- ===== src/Sdk/Models/DashboardSectionTypeEnum.antt =====
-- ui/v1/src/lib/sdk/models/DashboardSectionTypeEnum.ts
use ragbag.Common.{◌≡◌, refl, String, Bool, true, false, Option, none, some, ◌===◌, ◌||◌}
use ragbag.Sdk.Value.{Value, undefined, text, Dates, wire}
use ragbag.Sdk.Codec.{optional, or_undefined, RoundTrips}

pub data DashboardSectionTypeEnum : Type 0 where
  links favorites recent : DashboardSectionTypeEnum

abbrev pub dashboard_section_type_enum_text : DashboardSectionTypeEnum → String
dashboard_section_type_enum_text links = "LINKS"
dashboard_section_type_enum_text favorites = "FAVORITES"
dashboard_section_type_enum_text recent = "RECENT"

abbrev pub dashboard_section_type_enum_value : DashboardSectionTypeEnum → Value
dashboard_section_type_enum_value e = text (dashboard_section_type_enum_text e)

-- `as DashboardSectionTypeEnum` changes nothing.
unfoldable pub dashboard_section_type_enum_from_json : Value → Option Value
dashboard_section_type_enum_from_json json = some json

unfoldable pub dashboard_section_type_enum_to_json : Value → Option Value
dashboard_section_type_enum_to_json v = some v

-- The loop over the values of the enumeration, compared by `===`.
unfoldable pub instance_of_dashboard_section_type_enum : Value → Bool
instance_of_dashboard_section_type_enum (text s) =
    "LINKS" === s || "FAVORITES" === s || "RECENT" === s
instance_of_dashboard_section_type_enum _ = false

module _ (dates : Dates) where
  pub dashboard_section_type_enum-trips :
      (e : DashboardSectionTypeEnum)
      → RoundTrips dates dashboard_section_type_enum_to_json dashboard_section_type_enum_from_json
          (dashboard_section_type_enum_value e)
  unfolding dashboard_section_type_enum_to_json dashboard_section_type_enum_from_json wire
  dashboard_section_type_enum-trips e = (dashboard_section_type_enum_value e, refl, refl)

  pub optional_dashboard_section_type_enum-trips :
      (o : Option DashboardSectionTypeEnum)
      → RoundTrips dates dashboard_section_type_enum_to_json
          (optional dashboard_section_type_enum_from_json)
          (or_undefined dashboard_section_type_enum_value o)
  unfolding dashboard_section_type_enum_to_json dashboard_section_type_enum_from_json wire
  optional_dashboard_section_type_enum-trips none = (undefined, refl, refl)
  optional_dashboard_section_type_enum-trips (some e) =
      (dashboard_section_type_enum_value e, refl, refl)

pub instance_of_dashboard_section_type_enum-value :
    (e : DashboardSectionTypeEnum)
    → instance_of_dashboard_section_type_enum (dashboard_section_type_enum_value e) ≡ true
unfolding instance_of_dashboard_section_type_enum
instance_of_dashboard_section_type_enum-value links = refl
instance_of_dashboard_section_type_enum-value favorites = refl
instance_of_dashboard_section_type_enum-value recent = refl
