-- ===== src/Sdk/Apis/DashboardApi.antt =====
-- ui/v1/src/lib/sdk/apis/DashboardApi.ts
use ragbag.Common.{true, none, some, List, [], ◌∷◌}
use ragbag.Sdk.Value.{Dates}
use ragbag.Sdk.Runtime.Request.{delete, get, put}
use ragbag.Sdk.Apis.Operation.{Operation, model, no_body, json_with, void}
use ragbag.Sdk.Models.DashboardDto.{dashboard_dto_from_json}
use ragbag.Sdk.Models.UpdateDashboardDto.{update_dashboard_dto_to_json}

module _ (dates : Dates) where
  abbrev pub get_dashboard : Operation
  get_dashboard = record {
    required = "spaceId" ∷ [];
    in_query = [];
    content_type = none;
    authorized = true;
    template = "/v1/spaces/{spaceId}/dashboard";
    in_path = "spaceId" ∷ [];
    method = get;
    body = no_body;
    reader = json_with (dashboard_dto_from_json dates);
  }

  abbrev pub reset_dashboard : Operation
  reset_dashboard = record {
    required = "spaceId" ∷ [];
    in_query = [];
    content_type = none;
    authorized = true;
    template = "/v1/spaces/{spaceId}/dashboard";
    in_path = "spaceId" ∷ [];
    method = delete;
    body = no_body;
    reader = void;
  }

  abbrev pub update_dashboard : Operation
  update_dashboard = record {
    required = "spaceId" ∷ "updateDashboardDto" ∷ [];
    in_query = [];
    content_type = some "application/json";
    authorized = true;
    template = "/v1/spaces/{spaceId}/dashboard";
    in_path = "spaceId" ∷ [];
    method = put;
    body = model "updateDashboardDto" update_dashboard_dto_to_json;
    reader = json_with (dashboard_dto_from_json dates);
  }

  -- All of them.
  abbrev pub dashboard_api_operations : List Operation
  dashboard_api_operations = get_dashboard ∷ reset_dashboard ∷ update_dashboard ∷ []
