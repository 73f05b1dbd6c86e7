-- ===== src/Sdk/Apis/AppApi.antt =====
-- ui/v1/src/lib/sdk/apis/AppApi.ts
use ragbag.Common.{true, false, none, List, [], ◌∷◌}
use ragbag.Sdk.Value.{Dates}
use ragbag.Sdk.Runtime.Request.{get}
use ragbag.Sdk.Apis.Operation.{Operation, no_body, json_with, whole}
use ragbag.Sdk.Models.HealthDto.{health_dto_from_json}
use ragbag.Sdk.Models.LegalPageDto.{legal_page_dto_from_json}

module _ (dates : Dates) where
  abbrev pub feature_flags : Operation
  feature_flags = record {
    required = [];
    in_query = [];
    content_type = none;
    authorized = true;
    template = "/app/config/features";
    in_path = [];
    method = get;
    body = no_body;
    reader = whole;
  }

  abbrev pub get_legal_page : Operation
  get_legal_page = record {
    required = "page" ∷ [];
    in_query = [];
    content_type = none;
    authorized = false;
    template = "/app/legal/{page}";
    in_path = "page" ∷ [];
    method = get;
    body = no_body;
    reader = json_with legal_page_dto_from_json;
  }

  abbrev pub health : Operation
  health = record {
    required = [];
    in_query = [];
    content_type = none;
    authorized = false;
    template = "/health";
    in_path = [];
    method = get;
    body = no_body;
    reader = json_with health_dto_from_json;
  }

  -- All of them.
  abbrev pub app_api_operations : List Operation
  app_api_operations = feature_flags ∷ get_legal_page ∷ health ∷ []
