-- ===== src/Sdk/Models/AdminSettingsDto.antt =====
-- ui/v1/src/lib/sdk/models/AdminSettingsDto.ts
use ragbag.Common.{
  ℕ, ◌≡◌, refl, String, Bool, true, ◌&&◌, Option, some, List, [], ◌∷◌, if◌then◌else◌,
}
use ragbag.Sdk.Value.{Value, num, bool, text, obj, end, field, Dates, is_nullish, prop, wire}
use ragbag.Sdk.Codec.{
  parse_date_time, serialize_date_time, optional, nullable, object, has_field, or_undefined,
  ModelTrips,
}
use ragbag.Sdk.Codec.Trips.{Trip, model-trips}
use ragbag.Sdk.Codec.Forms.{same, texts, instant}
use ragbag.Sdk.Codec.Rows.{
  text_trip, num_trip, bool_trip, texts_trip, optional_text_trip, optional_num_trip,
  optional_bool_trip, optional_date_trip,
}

pub record AdminSettingsDto : Type 0 where
  pub public_url : String
  pub registration_open : Bool
  pub email : Bool
  pub rate_limits : Bool
  pub allow_private_hosts : Bool
  pub admin_users : List String
  pub quota_links_per_user : ℕ
  pub quota_spaces_per_user : ℕ
  pub quota_collections_per_space : ℕ
  pub quota_upload_mb_per_user : ℕ
  pub legal_imprint : Option String
  pub legal_privacy : Option String
  pub legal_terms : Option String
  pub backup_keep : Option ℕ
  pub last_backup_at : Option ℕ
  pub log_anonymize_ip : Option Bool
  pub log_file : Option String
  pub log_max_age_days : Option ℕ

-- The object, with undefined for a property that is missing.
abbrev pub admin_settings_dto_value : AdminSettingsDto → Value
admin_settings_dto_value d = obj (
    field "publicUrl" (text d.public_url) (
      field "registrationOpen" (bool d.registration_open) (
        field "email" (bool d.email) (
          field "rateLimits" (bool d.rate_limits) (
            field "allowPrivateHosts" (bool d.allow_private_hosts) (
              field "adminUsers" (texts d.admin_users) (
                field "quotaLinksPerUser" (num d.quota_links_per_user) (
                  field "quotaSpacesPerUser" (num d.quota_spaces_per_user) (
                    field "quotaCollectionsPerSpace" (num d.quota_collections_per_space) (
                      field "quotaUploadMbPerUser" (num d.quota_upload_mb_per_user) (
                        field "legalImprint" (or_undefined text d.legal_imprint) (
                          field "legalPrivacy" (or_undefined text d.legal_privacy) (
                            field "legalTerms" (or_undefined text d.legal_terms) (
                              field "backupKeep" (or_undefined num d.backup_keep) (
                                field "lastBackupAt" (or_undefined instant d.last_backup_at) (
                                  field "logAnonymizeIp" (or_undefined bool d.log_anonymize_ip) (
                                    field "logFile" (or_undefined text d.log_file) (
                                      field "logMaxAgeDays" (or_undefined num d.log_max_age_days)
                                        end))))))))))))))))))

unfoldable pub instance_of_admin_settings_dto : Value → Bool
instance_of_admin_settings_dto v =
    has_field v "publicUrl"
    && has_field v "registrationOpen"
    && has_field v "email"
    && has_field v "rateLimits"
    && has_field v "allowPrivateHosts"
    && has_field v "adminUsers"
    && has_field v "quotaLinksPerUser"
    && has_field v "quotaSpacesPerUser"
    && has_field v "quotaCollectionsPerSpace"
    && has_field v "quotaUploadMbPerUser"

unfoldable pub admin_settings_dto_from_json : (dates : Dates) → Value → Option Value
admin_settings_dto_from_json dates json =
    if is_nullish json
    then some json
    else object (
        ("publicUrl", same (prop json "publicUrl"))
        ∷ ("registrationOpen", same (prop json "registrationOpen"))
        ∷ ("email", same (prop json "email"))
        ∷ ("rateLimits", same (prop json "rateLimits"))
        ∷ ("allowPrivateHosts", same (prop json "allowPrivateHosts"))
        ∷ ("adminUsers", same (prop json "adminUsers"))
        ∷ ("quotaLinksPerUser", same (prop json "quotaLinksPerUser"))
        ∷ ("quotaSpacesPerUser", same (prop json "quotaSpacesPerUser"))
        ∷ ("quotaCollectionsPerSpace", same (prop json "quotaCollectionsPerSpace"))
        ∷ ("quotaUploadMbPerUser", same (prop json "quotaUploadMbPerUser"))
        ∷ ("legalImprint", optional same (prop json "legalImprint"))
        ∷ ("legalPrivacy", optional same (prop json "legalPrivacy"))
        ∷ ("legalTerms", optional same (prop json "legalTerms"))
        ∷ ("backupKeep", optional same (prop json "backupKeep"))
        ∷ ("lastBackupAt", optional (parse_date_time dates) (prop json "lastBackupAt"))
        ∷ ("logAnonymizeIp", optional same (prop json "logAnonymizeIp"))
        ∷ ("logFile", optional same (prop json "logFile"))
        ∷ ("logMaxAgeDays", optional same (prop json "logMaxAgeDays"))
        ∷ [])

unfoldable pub admin_settings_dto_to_json : (dates : Dates) → Value → Option Value
admin_settings_dto_to_json dates v =
    if is_nullish v
    then some v
    else object (
        ("publicUrl", same (prop v "publicUrl"))
        ∷ ("registrationOpen", same (prop v "registrationOpen"))
        ∷ ("email", same (prop v "email"))
        ∷ ("rateLimits", same (prop v "rateLimits"))
        ∷ ("allowPrivateHosts", same (prop v "allowPrivateHosts"))
        ∷ ("adminUsers", same (prop v "adminUsers"))
        ∷ ("quotaLinksPerUser", same (prop v "quotaLinksPerUser"))
        ∷ ("quotaSpacesPerUser", same (prop v "quotaSpacesPerUser"))
        ∷ ("quotaCollectionsPerSpace", same (prop v "quotaCollectionsPerSpace"))
        ∷ ("quotaUploadMbPerUser", same (prop v "quotaUploadMbPerUser"))
        ∷ ("legalImprint", same (prop v "legalImprint"))
        ∷ ("legalPrivacy", same (prop v "legalPrivacy"))
        ∷ ("legalTerms", same (prop v "legalTerms"))
        ∷ ("backupKeep", same (prop v "backupKeep"))
        ∷ ("lastBackupAt", nullable (serialize_date_time dates) (prop v "lastBackupAt"))
        ∷ ("logAnonymizeIp", same (prop v "logAnonymizeIp"))
        ∷ ("logFile", same (prop v "logFile"))
        ∷ ("logMaxAgeDays", same (prop v "logMaxAgeDays"))
        ∷ [])

-- Sent and read back, a `AdminSettingsDto` is what it was, and it passes the test for the model.
pub admin_settings_dto-trips :
    (dates : Dates) (d : AdminSettingsDto)
    → ModelTrips dates
        (admin_settings_dto_to_json dates)
        (admin_settings_dto_from_json dates)
        (admin_settings_dto_value d)
      × (instance_of_admin_settings_dto (admin_settings_dto_value d) ≡ true)
unfolding admin_settings_dto_to_json admin_settings_dto_from_json instance_of_admin_settings_dto
    wire
admin_settings_dto-trips dates d =
    let properties : List (Trip dates) =
      text_trip "publicUrl" d.public_url
      ∷ bool_trip "registrationOpen" d.registration_open
      ∷ bool_trip "email" d.email
      ∷ bool_trip "rateLimits" d.rate_limits
      ∷ bool_trip "allowPrivateHosts" d.allow_private_hosts
      ∷ texts_trip "adminUsers" d.admin_users
      ∷ num_trip "quotaLinksPerUser" d.quota_links_per_user
      ∷ num_trip "quotaSpacesPerUser" d.quota_spaces_per_user
      ∷ num_trip "quotaCollectionsPerSpace" d.quota_collections_per_space
      ∷ num_trip "quotaUploadMbPerUser" d.quota_upload_mb_per_user
      ∷ optional_text_trip "legalImprint" d.legal_imprint
      ∷ optional_text_trip "legalPrivacy" d.legal_privacy
      ∷ optional_text_trip "legalTerms" d.legal_terms
      ∷ optional_num_trip "backupKeep" d.backup_keep
      ∷ optional_date_trip "lastBackupAt" d.last_backup_at
      ∷ optional_bool_trip "logAnonymizeIp" d.log_anonymize_ip
      ∷ optional_text_trip "logFile" d.log_file
      ∷ optional_num_trip "logMaxAgeDays" d.log_max_age_days
      ∷ [] in
    (model-trips properties refl, refl)
