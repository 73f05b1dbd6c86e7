-- ===== src/Sdk/Models/BackupsDto.antt =====
-- ui/v1/src/lib/sdk/models/BackupsDto.ts
use ragbag.Common.{
  ℕ, ◌≡◌, refl, String, Bool, true, ◌&&◌, Option, some, List, [], ◌∷◌, if◌then◌else◌,
}
use ragbag.Sdk.Value.{Value, num, bool, text, arr, obj, end, field, Dates, is_nullish, prop, wire}
use ragbag.Sdk.Codec.{
  parse_date_time, serialize_date_time, optional, nullable, map_array, object, has_field,
  or_undefined, array_of, ModelTrips,
}
use ragbag.Sdk.Codec.Trips.{Trip, model-trips}
use ragbag.Sdk.Codec.Forms.{same, instant}
use ragbag.Sdk.Codec.Rows.{text_trip, num_trip, bool_trip, optional_date_trip, models_trip}
use ragbag.Sdk.Models.BackupFileDto.{
  BackupFileDto, backup_file_dto_value, backup_file_dto_from_json, backup_file_dto_to_json,
  backup_file_dto-trips,
}

pub record BackupsDto : Type 0 where
  pub enabled : Bool
  pub keep : ℕ
  pub interval_hours : ℕ
  pub dir : String
  pub next_at : Option ℕ
  pub files : List BackupFileDto

-- The object, with undefined for a property that is missing.
abbrev pub backups_dto_value : BackupsDto → Value
backups_dto_value d = obj (
    field "enabled" (bool d.enabled) (
      field "keep" (num d.keep) (
        field "intervalHours" (num d.interval_hours) (
          field "dir" (text d.dir) (
            field "nextAt" (or_undefined instant d.next_at)
              (field "files" (arr (array_of backup_file_dto_value d.files)) end))))))

unfoldable pub instance_of_backups_dto : Value → Bool
instance_of_backups_dto v =
    has_field v "enabled"
    && has_field v "keep"
    && has_field v "intervalHours"
    && has_field v "dir"
    && has_field v "files"

unfoldable pub backups_dto_from_json : (dates : Dates) → Value → Option Value
backups_dto_from_json dates json =
    if is_nullish json
    then some json
    else object (
        ("enabled", same (prop json "enabled"))
        ∷ ("keep", same (prop json "keep"))
        ∷ ("intervalHours", same (prop json "intervalHours"))
        ∷ ("dir", same (prop json "dir"))
        ∷ ("nextAt", optional (parse_date_time dates) (prop json "nextAt"))
        ∷ ("files", map_array (backup_file_dto_from_json dates) (prop json "files"))
        ∷ [])

unfoldable pub backups_dto_to_json : (dates : Dates) → Value → Option Value
backups_dto_to_json dates v =
    if is_nullish v
    then some v
    else object (
        ("enabled", same (prop v "enabled"))
        ∷ ("keep", same (prop v "keep"))
        ∷ ("intervalHours", same (prop v "intervalHours"))
        ∷ ("dir", same (prop v "dir"))
        ∷ ("nextAt", nullable (serialize_date_time dates) (prop v "nextAt"))
        ∷ ("files", map_array (backup_file_dto_to_json dates) (prop v "files"))
        ∷ [])

-- Sent and read back, a `BackupsDto` is what it was, and it passes the test for the model.
pub backups_dto-trips :
    (dates : Dates) (d : BackupsDto)
    → ModelTrips dates
        (backups_dto_to_json dates)
        (backups_dto_from_json dates)
        (backups_dto_value d)
      × (instance_of_backups_dto (backups_dto_value d) ≡ true)
unfolding backups_dto_to_json backups_dto_from_json instance_of_backups_dto wire
backups_dto-trips dates d =
    let properties : List (Trip dates) =
      bool_trip "enabled" d.enabled
      ∷ num_trip "keep" d.keep
      ∷ num_trip "intervalHours" d.interval_hours
      ∷ text_trip "dir" d.dir
      ∷ optional_date_trip "nextAt" d.next_at
      ∷ models_trip "files" backup_file_dto_value (backup_file_dto_to_json dates)
          (backup_file_dto_from_json dates) (λ x. (backup_file_dto-trips dates x).0) d.files
      ∷ [] in
    (model-trips properties refl, refl)
