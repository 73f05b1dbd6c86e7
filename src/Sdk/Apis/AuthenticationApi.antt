-- ===== src/Sdk/Apis/AuthenticationApi.antt =====
-- ui/v1/src/lib/sdk/apis/AuthenticationApi.ts
use ragbag.Common.{true, false, none, some, List, [], ◌∷◌}
use ragbag.Sdk.Value.{Dates}
use ragbag.Sdk.Runtime.Request.{get, post}
use ragbag.Sdk.Apis.Operation.{Operation, model, no_body, json_with, void}
use ragbag.Sdk.Models.ChangePasswordRequest.{change_password_request_to_json}
use ragbag.Sdk.Models.CompleteSetupRequest.{complete_setup_request_to_json}
use ragbag.Sdk.Models.InvitePreviewDto.{invite_preview_dto_from_json}
use ragbag.Sdk.Models.LoginRequest.{login_request_to_json}
use ragbag.Sdk.Models.LoginResponse.{login_response_from_json}
use ragbag.Sdk.Models.PasswordResetPreviewDto.{password_reset_preview_dto_from_json}
use ragbag.Sdk.Models.RegisterRequest.{register_request_to_json}
use ragbag.Sdk.Models.RequestPasswordResetRequest.{request_password_reset_request_to_json}
use ragbag.Sdk.Models.ResetPasswordRequest.{reset_password_request_to_json}
use ragbag.Sdk.Models.UserDto.{user_dto_from_json}

module _ (dates : Dates) where
  abbrev pub change_password : Operation
  change_password = record {
    required = "changePasswordRequest" ∷ [];
    in_query = [];
    content_type = some "application/json";
    authorized = true;
    template = "/auth/password";
    in_path = [];
    method = post;
    body = model "changePasswordRequest" change_password_request_to_json;
    reader = json_with login_response_from_json;
  }

  abbrev pub complete_setup : Operation
  complete_setup = record {
    required = "completeSetupRequest" ∷ [];
    in_query = [];
    content_type = some "application/json";
    authorized = true;
    template = "/auth/setup";
    in_path = [];
    method = post;
    body = model "completeSetupRequest" complete_setup_request_to_json;
    reader = json_with login_response_from_json;
  }

  abbrev pub get_password_reset : Operation
  get_password_reset = record {
    required = "token" ∷ [];
    in_query = [];
    content_type = none;
    authorized = false;
    template = "/auth/password-reset/{token}";
    in_path = "token" ∷ [];
    method = get;
    body = no_body;
    reader = json_with password_reset_preview_dto_from_json;
  }

  abbrev pub get_registration_invite : Operation
  get_registration_invite = record {
    required = "token" ∷ [];
    in_query = [];
    content_type = none;
    authorized = false;
    template = "/auth/invites/{token}";
    in_path = "token" ∷ [];
    method = get;
    body = no_body;
    reader = json_with invite_preview_dto_from_json;
  }

  abbrev pub login : Operation
  login = record {
    required = "loginRequest" ∷ [];
    in_query = [];
    content_type = some "application/json";
    authorized = true;
    template = "/auth/login";
    in_path = [];
    method = post;
    body = model "loginRequest" login_request_to_json;
    reader = json_with login_response_from_json;
  }

  abbrev pub logout : Operation
  logout = record {
    required = [];
    in_query = [];
    content_type = none;
    authorized = true;
    template = "/auth/logout";
    in_path = [];
    method = post;
    body = no_body;
    reader = void;
  }

  abbrev pub logout_all : Operation
  logout_all = record {
    required = [];
    in_query = [];
    content_type = none;
    authorized = true;
    template = "/auth/logout/all";
    in_path = [];
    method = get;
    body = no_body;
    reader = void;
  }

  abbrev pub refresh : Operation
  refresh = record {
    required = [];
    in_query = [];
    content_type = none;
    authorized = true;
    template = "/auth/refresh";
    in_path = [];
    method = post;
    body = no_body;
    reader = json_with login_response_from_json;
  }

  abbrev pub register : Operation
  register = record {
    required = "registerRequest" ∷ [];
    in_query = [];
    content_type = some "application/json";
    authorized = true;
    template = "/auth/register";
    in_path = [];
    method = post;
    body = model "registerRequest" register_request_to_json;
    reader = json_with user_dto_from_json;
  }

  abbrev pub request_password_reset : Operation
  request_password_reset = record {
    required = "requestPasswordResetRequest" ∷ [];
    in_query = [];
    content_type = some "application/json";
    authorized = false;
    template = "/auth/password-reset";
    in_path = [];
    method = post;
    body = model "requestPasswordResetRequest" request_password_reset_request_to_json;
    reader = void;
  }

  abbrev pub reset_password : Operation
  reset_password = record {
    required = "token" ∷ "resetPasswordRequest" ∷ [];
    in_query = [];
    content_type = some "application/json";
    authorized = false;
    template = "/auth/password-reset/{token}";
    in_path = "token" ∷ [];
    method = post;
    body = model "resetPasswordRequest" reset_password_request_to_json;
    reader = void;
  }

  abbrev pub verify_email : Operation
  verify_email = record {
    required = "token" ∷ [];
    in_query = [];
    content_type = none;
    authorized = false;
    template = "/auth/verify-email/{token}";
    in_path = "token" ∷ [];
    method = post;
    body = no_body;
    reader = json_with login_response_from_json;
  }

  -- All of them.
  abbrev pub authentication_api_operations : List Operation
  authentication_api_operations =
      change_password ∷ complete_setup ∷ get_password_reset ∷ get_registration_invite ∷ login
      ∷ logout ∷ logout_all ∷ refresh ∷ register ∷ request_password_reset ∷ reset_password
      ∷ verify_email ∷ []
