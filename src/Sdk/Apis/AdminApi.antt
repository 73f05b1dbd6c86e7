-- ===== src/Sdk/Apis/AdminApi.antt =====
-- ui/v1/src/lib/sdk/apis/AdminApi.ts
use ragbag.Common.{true, none, some, List, [], ◌∷◌}
use ragbag.Sdk.Value.{Dates}
use ragbag.Sdk.Codec.{map_array}
use ragbag.Sdk.Runtime.Request.{delete, get, post, put}
use ragbag.Sdk.Apis.Operation.{Operation, model, no_body, untouched, json_with, void, whole}
use ragbag.Sdk.Models.AbuseReportDto.{abuse_report_dto_from_json}
use ragbag.Sdk.Models.AdminOverviewDto.{admin_overview_dto_from_json}
use ragbag.Sdk.Models.AdminUserDto.{admin_user_dto_from_json}
use ragbag.Sdk.Models.BackupSummaryDto.{backup_summary_dto_from_json}
use ragbag.Sdk.Models.BackupsDto.{backups_dto_from_json}
use ragbag.Sdk.Models.BlockUserRequest.{block_user_request_to_json}
use ragbag.Sdk.Models.InstanceDto.{instance_dto_from_json}
use ragbag.Sdk.Models.PasswordResetDto.{password_reset_dto_from_json}
use ragbag.Sdk.Models.ResolveReportRequest.{resolve_report_request_to_json}

module _ (dates : Dates) where
  abbrev pub block_user : Operation
  block_user = record {
    required = "userId" ∷ "blockUserRequest" ∷ [];
    in_query = [];
    content_type = some "application/json";
    authorized = true;
    template = "/v1/admin/users/{userId}/block";
    in_path = "userId" ∷ [];
    method = put;
    body = model "blockUserRequest" block_user_request_to_json;
    reader = json_with (admin_user_dto_from_json dates);
  }

  abbrev pub create_backup : Operation
  create_backup = record {
    required = [];
    in_query = [];
    content_type = none;
    authorized = true;
    template = "/v1/admin/backups";
    in_path = [];
    method = post;
    body = no_body;
    reader = json_with (backups_dto_from_json dates);
  }

  abbrev pub create_password_reset : Operation
  create_password_reset = record {
    required = "userId" ∷ [];
    in_query = [];
    content_type = none;
    authorized = true;
    template = "/v1/admin/users/{userId}/password-reset";
    in_path = "userId" ∷ [];
    method = post;
    body = no_body;
    reader = json_with (password_reset_dto_from_json dates);
  }

  abbrev pub delete_user : Operation
  delete_user = record {
    required = "userId" ∷ [];
    in_query = [];
    content_type = none;
    authorized = true;
    template = "/v1/admin/users/{userId}";
    in_path = "userId" ∷ [];
    method = delete;
    body = no_body;
    reader = void;
  }

  abbrev pub download_backup : Operation
  download_backup = record {
    required = [];
    in_query = [];
    content_type = none;
    authorized = true;
    template = "/v1/admin/backup";
    in_path = [];
    method = get;
    body = no_body;
    reader = whole;
  }

  abbrev pub download_stored_backup : Operation
  download_stored_backup = record {
    required = "name" ∷ [];
    in_query = [];
    content_type = none;
    authorized = true;
    template = "/v1/admin/backups/{name}";
    in_path = "name" ∷ [];
    method = get;
    body = no_body;
    reader = whole;
  }

  abbrev pub get_admin_overview : Operation
  get_admin_overview = record {
    required = [];
    in_query = [];
    content_type = none;
    authorized = true;
    template = "/v1/admin/overview";
    in_path = [];
    method = get;
    body = no_body;
    reader = json_with (admin_overview_dto_from_json dates);
  }

  abbrev pub get_all_users : Operation
  get_all_users = record {
    required = [];
    in_query = [];
    content_type = none;
    authorized = true;
    template = "/v1/admin/users";
    in_path = [];
    method = get;
    body = no_body;
    reader = json_with (map_array (admin_user_dto_from_json dates));
  }

  abbrev pub get_backups : Operation
  get_backups = record {
    required = [];
    in_query = [];
    content_type = none;
    authorized = true;
    template = "/v1/admin/backups";
    in_path = [];
    method = get;
    body = no_body;
    reader = json_with (backups_dto_from_json dates);
  }

  abbrev pub get_instance : Operation
  get_instance = record {
    required = [];
    in_query = [];
    content_type = none;
    authorized = true;
    template = "/v1/admin/instance";
    in_path = [];
    method = get;
    body = no_body;
    reader = json_with instance_dto_from_json;
  }

  abbrev pub get_reports : Operation
  get_reports = record {
    required = [];
    in_query = [];
    content_type = none;
    authorized = true;
    template = "/v1/admin/reports";
    in_path = [];
    method = get;
    body = no_body;
    reader = json_with (map_array (abuse_report_dto_from_json dates));
  }

  abbrev pub resolve_report : Operation
  resolve_report = record {
    required = "reportId" ∷ "resolveReportRequest" ∷ [];
    in_query = [];
    content_type = some "application/json";
    authorized = true;
    template = "/v1/admin/reports/{reportId}/resolve";
    in_path = "reportId" ∷ [];
    method = post;
    body = model "resolveReportRequest" resolve_report_request_to_json;
    reader = json_with (abuse_report_dto_from_json dates);
  }

  abbrev pub restore_backup : Operation
  restore_backup = record {
    required = "body" ∷ [];
    in_query = "dryRun" ∷ [];
    content_type = some "application/octet-stream";
    authorized = true;
    template = "/v1/admin/backup/restore";
    in_path = [];
    method = post;
    body = untouched "body";
    reader = json_with (backup_summary_dto_from_json dates);
  }

  abbrev pub unblock_user : Operation
  unblock_user = record {
    required = "userId" ∷ [];
    in_query = [];
    content_type = none;
    authorized = true;
    template = "/v1/admin/users/{userId}/block";
    in_path = "userId" ∷ [];
    method = delete;
    body = no_body;
    reader = json_with (admin_user_dto_from_json dates);
  }

  -- All of them.
  abbrev pub admin_api_operations : List Operation
  admin_api_operations =
      block_user ∷ create_backup ∷ create_password_reset ∷ delete_user ∷ download_backup
      ∷ download_stored_backup ∷ get_admin_overview ∷ get_all_users ∷ get_backups ∷ get_instance
      ∷ get_reports ∷ resolve_report ∷ restore_backup ∷ unblock_user ∷ []
