-- ===== src/Sdk/Apis/InviteApi.antt =====
-- ui/v1/src/lib/sdk/apis/InviteApi.ts
use ragbag.Common.{true, none, some, List, [], ◌∷◌}
use ragbag.Sdk.Value.{Dates}
use ragbag.Sdk.Codec.{map_array}
use ragbag.Sdk.Runtime.Request.{delete, get, post}
use ragbag.Sdk.Apis.Operation.{Operation, model, no_body, json_with, void}
use ragbag.Sdk.Models.CreateInviteRequest.{create_invite_request_to_json}
use ragbag.Sdk.Models.InviteDto.{invite_dto_from_json}
use ragbag.Sdk.Models.InvitePreviewDto.{invite_preview_dto_from_json}

module _ (dates : Dates) where
  abbrev pub accept_invite : Operation
  accept_invite = record {
    required = "token" ∷ [];
    in_query = [];
    content_type = none;
    authorized = true;
    template = "/v1/invites/{token}";
    in_path = "token" ∷ [];
    method = post;
    body = no_body;
    reader = json_with invite_preview_dto_from_json;
  }

  abbrev pub create_invite : Operation
  create_invite = record {
    required = "createInviteRequest" ∷ [];
    in_query = [];
    content_type = some "application/json";
    authorized = true;
    template = "/v1/invites";
    in_path = [];
    method = post;
    body = model "createInviteRequest" (create_invite_request_to_json dates);
    reader = json_with (invite_dto_from_json dates);
  }

  abbrev pub delete_invite : Operation
  delete_invite = record {
    required = "token" ∷ [];
    in_query = [];
    content_type = none;
    authorized = true;
    template = "/v1/invites/{token}";
    in_path = "token" ∷ [];
    method = delete;
    body = no_body;
    reader = void;
  }

  abbrev pub get_invite : Operation
  get_invite = record {
    required = "token" ∷ [];
    in_query = [];
    content_type = none;
    authorized = true;
    template = "/v1/invites/{token}";
    in_path = "token" ∷ [];
    method = get;
    body = no_body;
    reader = json_with invite_preview_dto_from_json;
  }

  abbrev pub get_invites : Operation
  get_invites = record {
    required = [];
    in_query = [];
    content_type = none;
    authorized = true;
    template = "/v1/invites";
    in_path = [];
    method = get;
    body = no_body;
    reader = json_with (map_array (invite_dto_from_json dates));
  }

  abbrev pub get_space_invites : Operation
  get_space_invites = record {
    required = "spaceId" ∷ [];
    in_query = [];
    content_type = none;
    authorized = true;
    template = "/v1/spaces/{spaceId}/invites";
    in_path = "spaceId" ∷ [];
    method = get;
    body = no_body;
    reader = json_with (map_array (invite_dto_from_json dates));
  }

  -- All of them.
  abbrev pub invite_api_operations : List Operation
  invite_api_operations =
      accept_invite ∷ create_invite ∷ delete_invite ∷ get_invite ∷ get_invites ∷ get_space_invites
      ∷ []
