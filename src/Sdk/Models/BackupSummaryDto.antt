-- ===== src/Sdk/Models/BackupSummaryDto.antt =====
-- ui/v1/src/lib/sdk/models/BackupSummaryDto.ts
use ragbag.Common.{
  ℕ, ◌≡◌, refl, String, Bool, true, ◌&&◌, Option, some, List, [], ◌∷◌, if◌then◌else◌,
}
use ragbag.Sdk.Value.{Value, num, text, obj, end, field, Dates, is_nullish, prop, wire}
use ragbag.Sdk.Codec.{parse_date_time, serialize_date_time, nullable, object, has_field, ModelTrips}
use ragbag.Sdk.Codec.Trips.{Trip, model-trips}
use ragbag.Sdk.Codec.Forms.{same, texts, instant, num_map}
use ragbag.Sdk.Codec.Rows.{text_trip, num_trip, texts_trip, num_map_trip, date_trip}

pub record BackupSummaryDto : Type 0 where
  pub app_version : String
  pub schema_version : ℕ
  pub created_at : ℕ
  pub rows : List (String × ℕ)
  pub admins : List String
  pub usernames : List String

-- The object, with undefined for a property that is missing.
abbrev pub backup_summary_dto_value : BackupSummaryDto → Value
backup_summary_dto_value d = obj (
    field "appVersion" (text d.app_version) (
      field "schemaVersion" (num d.schema_version) (
        field "createdAt" (instant d.created_at) (
          field "rows" (num_map d.rows)
            (field "admins" (texts d.admins) (field "usernames" (texts d.usernames) end))))))

unfoldable pub instance_of_backup_summary_dto : Value → Bool
instance_of_backup_summary_dto v =
    has_field v "appVersion"
    && has_field v "schemaVersion"
    && has_field v "createdAt"
    && has_field v "rows"
    && has_field v "admins"
    && has_field v "usernames"

unfoldable pub backup_summary_dto_from_json : (dates : Dates) → Value → Option Value
backup_summary_dto_from_json dates json =
    if is_nullish json
    then some json
    else object (
        ("appVersion", same (prop json "appVersion"))
        ∷ ("schemaVersion", same (prop json "schemaVersion"))
        ∷ ("createdAt", nullable (parse_date_time dates) (prop json "createdAt"))
        ∷ ("rows", same (prop json "rows"))
        ∷ ("admins", same (prop json "admins"))
        ∷ ("usernames", same (prop json "usernames"))
        ∷ [])

unfoldable pub backup_summary_dto_to_json : (dates : Dates) → Value → Option Value
backup_summary_dto_to_json dates v =
    if is_nullish v
    then some v
    else object (
        ("appVersion", same (prop v "appVersion"))
        ∷ ("schemaVersion", same (prop v "schemaVersion"))
        ∷ ("createdAt", nullable (serialize_date_time dates) (prop v "createdAt"))
        ∷ ("rows", same (prop v "rows"))
        ∷ ("admins", same (prop v "admins"))
        ∷ ("usernames", same (prop v "usernames"))
        ∷ [])

-- Sent and read back, a `BackupSummaryDto` is what it was, and it passes the test for the model.
pub backup_summary_dto-trips :
    (dates : Dates) (d : BackupSummaryDto)
    → ModelTrips dates
        (backup_summary_dto_to_json dates)
        (backup_summary_dto_from_json dates)
        (backup_summary_dto_value d)
      × (instance_of_backup_summary_dto (backup_summary_dto_value d) ≡ true)
unfolding backup_summary_dto_to_json backup_summary_dto_from_json instance_of_backup_summary_dto
    wire
backup_summary_dto-trips dates d =
    let properties : List (Trip dates) =
      text_trip "appVersion" d.app_version
      ∷ num_trip "schemaVersion" d.schema_version
      ∷ date_trip "createdAt" d.created_at
      ∷ num_map_trip "rows" d.rows
      ∷ texts_trip "admins" d.admins
      ∷ texts_trip "usernames" d.usernames
      ∷ [] in
    (model-trips properties refl, refl)
