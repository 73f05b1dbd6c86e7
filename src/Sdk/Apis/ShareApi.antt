-- ===== src/Sdk/Apis/ShareApi.antt =====
-- ui/v1/src/lib/sdk/apis/ShareApi.ts
use ragbag.Common.{true, false, none, some, List, [], ◌∷◌}
use ragbag.Sdk.Value.{Dates}
use ragbag.Sdk.Runtime.Request.{get, post}
use ragbag.Sdk.Apis.Operation.{Operation, model, no_body, json_with, void}
use ragbag.Sdk.Models.CreateReportRequest.{create_report_request_to_json}
use ragbag.Sdk.Models.SharedCollectionDto.{shared_collection_dto_from_json}

module _ (dates : Dates) where
  abbrev pub get_shared_collection : Operation
  get_shared_collection = record {
    required = "token" ∷ [];
    in_query = "collectionId" ∷ [];
    content_type = none;
    authorized = true;
    template = "/v1/shares/{token}";
    in_path = "token" ∷ [];
    method = get;
    body = no_body;
    reader = json_with (shared_collection_dto_from_json dates);
  }

  abbrev pub report_share : Operation
  report_share = record {
    required = "token" ∷ "createReportRequest" ∷ [];
    in_query = [];
    content_type = some "application/json";
    authorized = false;
    template = "/v1/shares/{token}/reports";
    in_path = "token" ∷ [];
    method = post;
    body = model "createReportRequest" create_report_request_to_json;
    reader = void;
  }

  -- All of them.
  abbrev pub share_api_operations : List Operation
  share_api_operations = get_shared_collection ∷ report_share ∷ []
