-- ===== src/Sdk/Apis/UserApi.antt =====
-- ui/v1/src/lib/sdk/apis/UserApi.ts
use ragbag.Common.{true, none, some, List, [], ◌∷◌}
use ragbag.Sdk.Value.{Dates}
use ragbag.Sdk.Runtime.Request.{delete, get, post, put}
use ragbag.Sdk.Apis.Operation.{Operation, form_of, model, no_body, json_with, void}
use ragbag.Sdk.Models.DeleteAccountRequest.{delete_account_request_to_json}
use ragbag.Sdk.Models.DisplayNameDto.{display_name_dto_to_json}
use ragbag.Sdk.Models.SetPinDto.{set_pin_dto_to_json}
use ragbag.Sdk.Models.SpaceBarDto.{space_bar_dto_from_json, space_bar_dto_to_json}
use ragbag.Sdk.Models.StartSpaceDto.{start_space_dto_to_json}
use ragbag.Sdk.Models.UnlockDto.{unlock_dto_from_json}
use ragbag.Sdk.Models.UnlockRequest.{unlock_request_to_json}
use ragbag.Sdk.Models.UserDto.{user_dto_from_json}

module _ (dates : Dates) where
  abbrev pub delete_account : Operation
  delete_account = record {
    required = "deleteAccountRequest" ∷ [];
    in_query = [];
    content_type = some "application/json";
    authorized = true;
    template = "/v1/users/me/delete";
    in_path = [];
    method = post;
    body = model "deleteAccountRequest" delete_account_request_to_json;
    reader = void;
  }

  abbrev pub get_space_bar : Operation
  get_space_bar = record {
    required = [];
    in_query = [];
    content_type = none;
    authorized = true;
    template = "/v1/users/me/space-bar";
    in_path = [];
    method = get;
    body = no_body;
    reader = json_with space_bar_dto_from_json;
  }

  abbrev pub me : Operation
  me = record {
    required = [];
    in_query = [];
    content_type = none;
    authorized = true;
    template = "/v1/users/me";
    in_path = [];
    method = get;
    body = no_body;
    reader = json_with user_dto_from_json;
  }

  abbrev pub remove_avatar : Operation
  remove_avatar = record {
    required = [];
    in_query = [];
    content_type = none;
    authorized = true;
    template = "/v1/users/me/avatar";
    in_path = [];
    method = delete;
    body = no_body;
    reader = json_with user_dto_from_json;
  }

  abbrev pub renew_unlock : Operation
  renew_unlock = record {
    required = [];
    in_query = [];
    content_type = none;
    authorized = true;
    template = "/v1/users/me/unlock/renew";
    in_path = [];
    method = post;
    body = no_body;
    reader = json_with (unlock_dto_from_json dates);
  }

  abbrev pub set_avatar : Operation
  set_avatar = record {
    required = [];
    in_query = [];
    content_type = none;
    authorized = true;
    template = "/v1/users/me/avatar";
    in_path = [];
    method = put;
    body = form_of ("file" ∷ "url" ∷ []);
    reader = json_with user_dto_from_json;
  }

  abbrev pub set_display_name : Operation
  set_display_name = record {
    required = "displayNameDto" ∷ [];
    in_query = [];
    content_type = some "application/json";
    authorized = true;
    template = "/v1/users/me/display-name";
    in_path = [];
    method = put;
    body = model "displayNameDto" display_name_dto_to_json;
    reader = json_with user_dto_from_json;
  }

  abbrev pub set_pin : Operation
  set_pin = record {
    required = "setPinDto" ∷ [];
    in_query = [];
    content_type = some "application/json";
    authorized = true;
    template = "/v1/users/me/pin";
    in_path = [];
    method = put;
    body = model "setPinDto" set_pin_dto_to_json;
    reader = void;
  }

  abbrev pub set_start_space : Operation
  set_start_space = record {
    required = "startSpaceDto" ∷ [];
    in_query = [];
    content_type = some "application/json";
    authorized = true;
    template = "/v1/users/me/start-space";
    in_path = [];
    method = put;
    body = model "startSpaceDto" start_space_dto_to_json;
    reader = json_with user_dto_from_json;
  }

  abbrev pub unlock : Operation
  unlock = record {
    required = "unlockRequest" ∷ [];
    in_query = [];
    content_type = some "application/json";
    authorized = true;
    template = "/v1/users/me/unlock";
    in_path = [];
    method = post;
    body = model "unlockRequest" unlock_request_to_json;
    reader = json_with (unlock_dto_from_json dates);
  }

  abbrev pub update_space_bar : Operation
  update_space_bar = record {
    required = "spaceBarDto" ∷ [];
    in_query = [];
    content_type = some "application/json";
    authorized = true;
    template = "/v1/users/me/space-bar";
    in_path = [];
    method = put;
    body = model "spaceBarDto" space_bar_dto_to_json;
    reader = json_with space_bar_dto_from_json;
  }

  -- All of them.
  abbrev pub user_api_operations : List Operation
  user_api_operations =
      delete_account ∷ get_space_bar ∷ me ∷ remove_avatar ∷ renew_unlock ∷ set_avatar
      ∷ set_display_name ∷ set_pin ∷ set_start_space ∷ unlock ∷ update_space_bar ∷ []
