-- ===== src/Sdk/Models/HealthDto.antt =====
-- ui/v1/src/lib/sdk/models/HealthDto.ts
use ragbag.Common.{◌≡◌, refl, String, Bool, true, ◌&&◌, Option, some, List, [], ◌∷◌, if◌then◌else◌}
use ragbag.Sdk.Value.{Value, text, obj, end, field, Dates, is_nullish, prop, wire}
use ragbag.Sdk.Codec.{object, has_field, ModelTrips}
use ragbag.Sdk.Codec.Trips.{Trip, model-trips}
use ragbag.Sdk.Codec.Forms.{same, text-trips}
use ragbag.Sdk.Codec.Rows.{trip, text_trip}

pub data HealthDtoStatusEnum : Type 0 where
  ok unavailable : HealthDtoStatusEnum

abbrev pub health_dto_status_enum_text : HealthDtoStatusEnum → String
health_dto_status_enum_text ok = "ok"
health_dto_status_enum_text unavailable = "unavailable"

abbrev pub health_dto_status_enum_value : HealthDtoStatusEnum → Value
health_dto_status_enum_value e = text (health_dto_status_enum_text e)

pub record HealthDto : Type 0 where
  pub status : HealthDtoStatusEnum
  pub version : String

-- The object, with undefined for a property that is missing.
abbrev pub health_dto_value : HealthDto → Value
health_dto_value d =
    obj (
      field "status" (health_dto_status_enum_value d.status) (field "version" (text d.version) end))

unfoldable pub instance_of_health_dto : Value → Bool
instance_of_health_dto v = has_field v "status" && has_field v "version"

unfoldable pub health_dto_from_json : Value → Option Value
health_dto_from_json json =
    if is_nullish json
    then some json
    else object
        (("status", same (prop json "status")) ∷ ("version", same (prop json "version")) ∷ [])

unfoldable pub health_dto_to_json : Value → Option Value
health_dto_to_json v =
    if is_nullish v
    then some v
    else object (("status", same (prop v "status")) ∷ ("version", same (prop v "version")) ∷ [])

-- Sent and read back, a `HealthDto` is what it was, and it passes the test for the model.
pub health_dto-trips :
    (dates : Dates) (d : HealthDto)
    → ModelTrips dates health_dto_to_json health_dto_from_json (health_dto_value d)
      × (instance_of_health_dto (health_dto_value d) ≡ true)
unfolding health_dto_to_json health_dto_from_json instance_of_health_dto wire
health_dto-trips dates d =
    let properties : List (Trip dates) =
      trip "status" "status" same same (health_dto_status_enum_value d.status)
        (text-trips dates (health_dto_status_enum_text d.status))
      ∷ text_trip "version" d.version
      ∷ [] in
    (model-trips properties refl, refl)
