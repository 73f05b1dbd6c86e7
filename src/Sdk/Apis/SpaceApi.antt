-- ===== src/Sdk/Apis/SpaceApi.antt =====
-- ui/v1/src/lib/sdk/apis/SpaceApi.ts
use ragbag.Common.{true, none, some, List, [], ◌∷◌}
use ragbag.Sdk.Value.{Dates}
use ragbag.Sdk.Codec.{map_array}
use ragbag.Sdk.Runtime.Request.{delete, get, post, put}
use ragbag.Sdk.Apis.Operation.{Operation, form_of, model, no_body, json_with, void}
use ragbag.Sdk.Models.CollectionNewsDto.{collection_news_dto_from_json}
use ragbag.Sdk.Models.CreateSpaceDto.{create_space_dto_to_json}
use ragbag.Sdk.Models.DiscoverableSpaceDto.{discoverable_space_dto_from_json}
use ragbag.Sdk.Models.SpaceDto.{space_dto_from_json}
use ragbag.Sdk.Models.SpaceMemberDto.{space_member_dto_from_json}
use ragbag.Sdk.Models.TagCountDto.{tag_count_dto_from_json}
use ragbag.Sdk.Models.TrashDto.{trash_dto_from_json}
use ragbag.Sdk.Models.TrashSelectionDto.{trash_selection_dto_to_json}
use ragbag.Sdk.Models.UpdateSpaceDto.{update_space_dto_to_json}
use ragbag.Sdk.Models.UpdateSpaceMemberDto.{update_space_member_dto_to_json}

module _ (dates : Dates) where
  abbrev pub create_space : Operation
  create_space = record {
    required = "createSpaceDto" ∷ [];
    in_query = [];
    content_type = some "application/json";
    authorized = true;
    template = "/v1/spaces";
    in_path = [];
    method = post;
    body = model "createSpaceDto" create_space_dto_to_json;
    reader = json_with space_dto_from_json;
  }

  abbrev pub delete_space : Operation
  delete_space = record {
    required = "spaceId" ∷ [];
    in_query = [];
    content_type = none;
    authorized = true;
    template = "/v1/spaces/{spaceId}";
    in_path = "spaceId" ∷ [];
    method = delete;
    body = no_body;
    reader = void;
  }

  abbrev pub discover_spaces : Operation
  discover_spaces = record {
    required = [];
    in_query = "q" ∷ [];
    content_type = none;
    authorized = true;
    template = "/v1/spaces/discover";
    in_path = [];
    method = get;
    body = no_body;
    reader = json_with (map_array discoverable_space_dto_from_json);
  }

  abbrev pub get_space : Operation
  get_space = record {
    required = "spaceId" ∷ [];
    in_query = [];
    content_type = none;
    authorized = true;
    template = "/v1/spaces/{spaceId}";
    in_path = "spaceId" ∷ [];
    method = get;
    body = no_body;
    reader = json_with space_dto_from_json;
  }

  abbrev pub get_space_members : Operation
  get_space_members = record {
    required = "spaceId" ∷ [];
    in_query = [];
    content_type = none;
    authorized = true;
    template = "/v1/spaces/{spaceId}/members";
    in_path = "spaceId" ∷ [];
    method = get;
    body = no_body;
    reader = json_with (map_array space_member_dto_from_json);
  }

  abbrev pub get_space_news : Operation
  get_space_news = record {
    required = "spaceId" ∷ [];
    in_query = [];
    content_type = none;
    authorized = true;
    template = "/v1/spaces/{spaceId}/news";
    in_path = "spaceId" ∷ [];
    method = get;
    body = no_body;
    reader = json_with (map_array (collection_news_dto_from_json dates));
  }

  abbrev pub get_space_tags : Operation
  get_space_tags = record {
    required = "spaceId" ∷ [];
    in_query = [];
    content_type = none;
    authorized = true;
    template = "/v1/spaces/{spaceId}/tags";
    in_path = "spaceId" ∷ [];
    method = get;
    body = no_body;
    reader = json_with (map_array tag_count_dto_from_json);
  }

  abbrev pub get_spaces : Operation
  get_spaces = record {
    required = [];
    in_query = [];
    content_type = none;
    authorized = true;
    template = "/v1/spaces";
    in_path = [];
    method = get;
    body = no_body;
    reader = json_with (map_array space_dto_from_json);
  }

  abbrev pub get_trash : Operation
  get_trash = record {
    required = "spaceId" ∷ [];
    in_query = [];
    content_type = none;
    authorized = true;
    template = "/v1/spaces/{spaceId}/trash";
    in_path = "spaceId" ∷ [];
    method = get;
    body = no_body;
    reader = json_with (trash_dto_from_json dates);
  }

  abbrev pub join_space : Operation
  join_space = record {
    required = "spaceId" ∷ [];
    in_query = [];
    content_type = none;
    authorized = true;
    template = "/v1/spaces/{spaceId}/join";
    in_path = "spaceId" ∷ [];
    method = post;
    body = no_body;
    reader = json_with space_dto_from_json;
  }

  abbrev pub leave_space : Operation
  leave_space = record {
    required = "spaceId" ∷ [];
    in_query = [];
    content_type = none;
    authorized = true;
    template = "/v1/spaces/{spaceId}/leave";
    in_path = "spaceId" ∷ [];
    method = post;
    body = no_body;
    reader = void;
  }

  abbrev pub mark_space_seen : Operation
  mark_space_seen = record {
    required = "spaceId" ∷ [];
    in_query = [];
    content_type = none;
    authorized = true;
    template = "/v1/spaces/{spaceId}/seen";
    in_path = "spaceId" ∷ [];
    method = post;
    body = no_body;
    reader = void;
  }

  abbrev pub mark_space_welcomed : Operation
  mark_space_welcomed = record {
    required = "spaceId" ∷ [];
    in_query = [];
    content_type = none;
    authorized = true;
    template = "/v1/spaces/{spaceId}/welcomed";
    in_path = "spaceId" ∷ [];
    method = post;
    body = no_body;
    reader = void;
  }

  abbrev pub purge_trash : Operation
  purge_trash = record {
    required = "spaceId" ∷ "trashSelectionDto" ∷ [];
    in_query = [];
    content_type = some "application/json";
    authorized = true;
    template = "/v1/spaces/{spaceId}/trash/purge";
    in_path = "spaceId" ∷ [];
    method = post;
    body = model "trashSelectionDto" trash_selection_dto_to_json;
    reader = void;
  }

  abbrev pub remove_space_icon : Operation
  remove_space_icon = record {
    required = "spaceId" ∷ [];
    in_query = [];
    content_type = none;
    authorized = true;
    template = "/v1/spaces/{spaceId}/icon";
    in_path = "spaceId" ∷ [];
    method = delete;
    body = no_body;
    reader = json_with space_dto_from_json;
  }

  abbrev pub remove_space_member : Operation
  remove_space_member = record {
    required = "spaceId" ∷ "userId" ∷ [];
    in_query = [];
    content_type = none;
    authorized = true;
    template = "/v1/spaces/{spaceId}/members/{userId}";
    in_path = "spaceId" ∷ "userId" ∷ [];
    method = delete;
    body = no_body;
    reader = void;
  }

  abbrev pub restore_from_trash : Operation
  restore_from_trash = record {
    required = "spaceId" ∷ "trashSelectionDto" ∷ [];
    in_query = [];
    content_type = some "application/json";
    authorized = true;
    template = "/v1/spaces/{spaceId}/trash/restore";
    in_path = "spaceId" ∷ [];
    method = post;
    body = model "trashSelectionDto" trash_selection_dto_to_json;
    reader = void;
  }

  abbrev pub set_space_icon : Operation
  set_space_icon = record {
    required = "spaceId" ∷ [];
    in_query = [];
    content_type = none;
    authorized = true;
    template = "/v1/spaces/{spaceId}/icon";
    in_path = "spaceId" ∷ [];
    method = put;
    body = form_of ("file" ∷ "url" ∷ []);
    reader = json_with space_dto_from_json;
  }

  abbrev pub update_space : Operation
  update_space = record {
    required = "spaceId" ∷ "updateSpaceDto" ∷ [];
    in_query = [];
    content_type = some "application/json";
    authorized = true;
    template = "/v1/spaces/{spaceId}";
    in_path = "spaceId" ∷ [];
    method = put;
    body = model "updateSpaceDto" update_space_dto_to_json;
    reader = json_with space_dto_from_json;
  }

  abbrev pub update_space_member : Operation
  update_space_member = record {
    required = "spaceId" ∷ "userId" ∷ "updateSpaceMemberDto" ∷ [];
    in_query = [];
    content_type = some "application/json";
    authorized = true;
    template = "/v1/spaces/{spaceId}/members/{userId}";
    in_path = "spaceId" ∷ "userId" ∷ [];
    method = put;
    body = model "updateSpaceMemberDto" update_space_member_dto_to_json;
    reader = json_with space_member_dto_from_json;
  }

  -- All of them.
  abbrev pub space_api_operations : List Operation
  space_api_operations =
      create_space ∷ delete_space ∷ discover_spaces ∷ get_space ∷ get_space_members ∷ get_space_news
      ∷ get_space_tags ∷ get_spaces ∷ get_trash ∷ join_space ∷ leave_space ∷ mark_space_seen
      ∷ mark_space_welcomed ∷ purge_trash ∷ remove_space_icon ∷ remove_space_member
      ∷ restore_from_trash ∷ set_space_icon ∷ update_space ∷ update_space_member ∷ []
