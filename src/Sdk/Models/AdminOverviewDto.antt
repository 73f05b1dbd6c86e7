-- ===== src/Sdk/Models/AdminOverviewDto.antt =====
-- ui/v1/src/lib/sdk/models/AdminOverviewDto.ts
use ragbag.Common.{
  ℕ, ◌≡◌, refl, String, Bool, true, ◌&&◌, Option, some, List, [], ◌∷◌, if◌then◌else◌,
}
use ragbag.Sdk.Value.{Value, num, text, obj, end, field, Dates, is_nullish, prop, wire}
use ragbag.Sdk.Codec.{object, has_field, ModelTrips}
use ragbag.Sdk.Codec.Trips.{Trip, model-trips}
use ragbag.Sdk.Codec.Forms.{same, text-trips}
use ragbag.Sdk.Codec.Rows.{trip, text_trip, num_trip, model_trip}
use ragbag.Sdk.Models.AdminSettingsDto.{
  AdminSettingsDto, admin_settings_dto_value, admin_settings_dto_from_json,
  admin_settings_dto_to_json, admin_settings_dto-trips,
}

pub data AdminOverviewDtoDatabaseEnum : Type 0 where
  sqlite postgres : AdminOverviewDtoDatabaseEnum

abbrev pub admin_overview_dto_database_enum_text : AdminOverviewDtoDatabaseEnum → String
admin_overview_dto_database_enum_text sqlite = "sqlite"
admin_overview_dto_database_enum_text postgres = "postgres"

abbrev pub admin_overview_dto_database_enum_value : AdminOverviewDtoDatabaseEnum → Value
admin_overview_dto_database_enum_value e = text (admin_overview_dto_database_enum_text e)

pub record AdminOverviewDto : Type 0 where
  pub version : String
  pub database : AdminOverviewDtoDatabaseEnum
  pub schema_version : ℕ
  pub users : ℕ
  pub blocked_users : ℕ
  pub unconfirmed_users : ℕ
  pub spaces : ℕ
  pub collections : ℕ
  pub bookmarks : ℕ
  pub public_links : ℕ
  pub image_bytes : ℕ
  pub open_reports : ℕ
  pub settings : AdminSettingsDto

-- The object, with undefined for a property that is missing.
abbrev pub admin_overview_dto_value : AdminOverviewDto → Value
admin_overview_dto_value d = obj (
    field "version" (text d.version) (
      field "database" (admin_overview_dto_database_enum_value d.database) (
        field "schemaVersion" (num d.schema_version) (
          field "users" (num d.users) (
            field "blockedUsers" (num d.blocked_users) (
              field "unconfirmedUsers" (num d.unconfirmed_users) (
                field "spaces" (num d.spaces) (
                  field "collections" (num d.collections) (
                    field "bookmarks" (num d.bookmarks) (
                      field "publicLinks" (num d.public_links) (
                        field "imageBytes" (num d.image_bytes) (
                          field "openReports" (num d.open_reports)
                            (field "settings" (admin_settings_dto_value d.settings) end)))))))))))))

unfoldable pub instance_of_admin_overview_dto : Value → Bool
instance_of_admin_overview_dto v =
    has_field v "version"
    && has_field v "database"
    && has_field v "schemaVersion"
    && has_field v "users"
    && has_field v "blockedUsers"
    && has_field v "unconfirmedUsers"
    && has_field v "spaces"
    && has_field v "collections"
    && has_field v "bookmarks"
    && has_field v "publicLinks"
    && has_field v "imageBytes"
    && has_field v "openReports"
    && has_field v "settings"

unfoldable pub admin_overview_dto_from_json : (dates : Dates) → Value → Option Value
admin_overview_dto_from_json dates json =
    if is_nullish json
    then some json
    else object (
        ("version", same (prop json "version"))
        ∷ ("database", same (prop json "database"))
        ∷ ("schemaVersion", same (prop json "schemaVersion"))
        ∷ ("users", same (prop json "users"))
        ∷ ("blockedUsers", same (prop json "blockedUsers"))
        ∷ ("unconfirmedUsers", same (prop json "unconfirmedUsers"))
        ∷ ("spaces", same (prop json "spaces"))
        ∷ ("collections", same (prop json "collections"))
        ∷ ("bookmarks", same (prop json "bookmarks"))
        ∷ ("publicLinks", same (prop json "publicLinks"))
        ∷ ("imageBytes", same (prop json "imageBytes"))
        ∷ ("openReports", same (prop json "openReports"))
        ∷ ("settings", admin_settings_dto_from_json dates (prop json "settings"))
        ∷ [])

unfoldable pub admin_overview_dto_to_json : (dates : Dates) → Value → Option Value
admin_overview_dto_to_json dates v =
    if is_nullish v
    then some v
    else object (
        ("version", same (prop v "version"))
        ∷ ("database", same (prop v "database"))
        ∷ ("schemaVersion", same (prop v "schemaVersion"))
        ∷ ("users", same (prop v "users"))
        ∷ ("blockedUsers", same (prop v "blockedUsers"))
        ∷ ("unconfirmedUsers", same (prop v "unconfirmedUsers"))
        ∷ ("spaces", same (prop v "spaces"))
        ∷ ("collections", same (prop v "collections"))
        ∷ ("bookmarks", same (prop v "bookmarks"))
        ∷ ("publicLinks", same (prop v "publicLinks"))
        ∷ ("imageBytes", same (prop v "imageBytes"))
        ∷ ("openReports", same (prop v "openReports"))
        ∷ ("settings", admin_settings_dto_to_json dates (prop v "settings"))
        ∷ [])

-- Sent and read back, a `AdminOverviewDto` is what it was, and it passes the test for the model.
pub admin_overview_dto-trips :
    (dates : Dates) (d : AdminOverviewDto)
    → ModelTrips dates
        (admin_overview_dto_to_json dates)
        (admin_overview_dto_from_json dates)
        (admin_overview_dto_value d)
      × (instance_of_admin_overview_dto (admin_overview_dto_value d) ≡ true)
unfolding admin_overview_dto_to_json admin_overview_dto_from_json instance_of_admin_overview_dto
    wire
admin_overview_dto-trips dates d =
    let properties : List (Trip dates) =
      text_trip "version" d.version
      ∷ trip "database" "database" same same (admin_overview_dto_database_enum_value d.database)
          (text-trips dates (admin_overview_dto_database_enum_text d.database))
      ∷ num_trip "schemaVersion" d.schema_version
      ∷ num_trip "users" d.users
      ∷ num_trip "blockedUsers" d.blocked_users
      ∷ num_trip "unconfirmedUsers" d.unconfirmed_users
      ∷ num_trip "spaces" d.spaces
      ∷ num_trip "collections" d.collections
      ∷ num_trip "bookmarks" d.bookmarks
      ∷ num_trip "publicLinks" d.public_links
      ∷ num_trip "imageBytes" d.image_bytes
      ∷ num_trip "openReports" d.open_reports
      ∷ model_trip "settings" admin_settings_dto_value (admin_settings_dto_to_json dates)
          (admin_settings_dto_from_json dates) (λ x. (admin_settings_dto-trips dates x).0)
          d.settings
      ∷ [] in
    (model-trips properties refl, refl)
