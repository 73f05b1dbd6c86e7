-- ===== src/Sdk/Models/BackupFileDto.antt =====
-- ui/v1/src/lib/sdk/models/BackupFileDto.ts
use ragbag.Common.{
  ℕ, ◌≡◌, refl, String, Bool, true, ◌&&◌, Option, some, List, [], ◌∷◌, if◌then◌else◌,
}
use ragbag.Sdk.Value.{Value, num, text, obj, end, field, Dates, is_nullish, prop, wire}
use ragbag.Sdk.Codec.{parse_date_time, serialize_date_time, nullable, object, has_field, ModelTrips}
use ragbag.Sdk.Codec.Trips.{Trip, model-trips}
use ragbag.Sdk.Codec.Forms.{same, instant}
use ragbag.Sdk.Codec.Rows.{text_trip, num_trip, date_trip}

pub record BackupFileDto : Type 0 where
  pub name : String
  pub size : ℕ
  pub created_at : ℕ

-- The object, with undefined for a property that is missing.
abbrev pub backup_file_dto_value : BackupFileDto → Value
backup_file_dto_value d = obj (
    field "name" (text d.name)
      (field "size" (num d.size) (field "createdAt" (instant d.created_at) end)))

unfoldable pub instance_of_backup_file_dto : Value → Bool
instance_of_backup_file_dto v = has_field v "name" && has_field v "size" && has_field v "createdAt"

unfoldable pub backup_file_dto_from_json : (dates : Dates) → Value → Option Value
backup_file_dto_from_json dates json =
    if is_nullish json
    then some json
    else object (
        ("name", same (prop json "name"))
        ∷ ("size", same (prop json "size"))
        ∷ ("createdAt", nullable (parse_date_time dates) (prop json "createdAt"))
        ∷ [])

unfoldable pub backup_file_dto_to_json : (dates : Dates) → Value → Option Value
backup_file_dto_to_json dates v =
    if is_nullish v
    then some v
    else object (
        ("name", same (prop v "name"))
        ∷ ("size", same (prop v "size"))
        ∷ ("createdAt", nullable (serialize_date_time dates) (prop v "createdAt"))
        ∷ [])

-- Sent and read back, a `BackupFileDto` is what it was, and it passes the test for the model.
pub backup_file_dto-trips :
    (dates : Dates) (d : BackupFileDto)
    → ModelTrips dates
        (backup_file_dto_to_json dates)
        (backup_file_dto_from_json dates)
        (backup_file_dto_value d)
      × (instance_of_backup_file_dto (backup_file_dto_value d) ≡ true)
unfolding backup_file_dto_to_json backup_file_dto_from_json instance_of_backup_file_dto wire
backup_file_dto-trips dates d =
    let properties : List (Trip dates) =
      text_trip "name" d.name ∷ num_trip "size" d.size ∷ date_trip "createdAt" d.created_at ∷ [] in
    (model-trips properties refl, refl)
