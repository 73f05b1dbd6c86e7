-- ===== src/Sdk/Apis/BookmarkApi.antt =====
-- ui/v1/src/lib/sdk/apis/BookmarkApi.ts
use ragbag.Common.{true, none, some, List, [], ◌∷◌}
use ragbag.Sdk.Value.{Dates}
use ragbag.Sdk.Codec.{map_array}
use ragbag.Sdk.Runtime.Request.{delete, get, post, put}
use ragbag.Sdk.Apis.Operation.{Operation, form_of, model, no_body, json_with, void}
use ragbag.Sdk.Models.BookmarkDto.{bookmark_dto_from_json}
use ragbag.Sdk.Models.BookmarkMetadataDto.{bookmark_metadata_dto_from_json}
use ragbag.Sdk.Models.CreateBookmarkDto.{create_bookmark_dto_to_json}
use ragbag.Sdk.Models.FetchMetadataRequest.{fetch_metadata_request_to_json}
use ragbag.Sdk.Models.ReactionDto.{reaction_dto_from_json}
use ragbag.Sdk.Models.SetReactionDto.{set_reaction_dto_to_json}
use ragbag.Sdk.Models.UpdateBookmarkDto.{update_bookmark_dto_to_json}

module _ (dates : Dates) where
  abbrev pub add_favorite : Operation
  add_favorite = record {
    required = "bookmarkId" ∷ [];
    in_query = [];
    content_type = none;
    authorized = true;
    template = "/v1/bookmarks/{bookmarkId}/favorite";
    in_path = "bookmarkId" ∷ [];
    method = put;
    body = no_body;
    reader = void;
  }

  abbrev pub create_bookmark : Operation
  create_bookmark = record {
    required = "collectionId" ∷ "createBookmarkDto" ∷ [];
    in_query = [];
    content_type = some "application/json";
    authorized = true;
    template = "/v1/collections/{collectionId}/bookmarks";
    in_path = "collectionId" ∷ [];
    method = post;
    body = model "createBookmarkDto" create_bookmark_dto_to_json;
    reader = json_with (bookmark_dto_from_json dates);
  }

  abbrev pub delete_bookmark : Operation
  delete_bookmark = record {
    required = "bookmarkId" ∷ [];
    in_query = [];
    content_type = none;
    authorized = true;
    template = "/v1/bookmarks/{bookmarkId}";
    in_path = "bookmarkId" ∷ [];
    method = delete;
    body = no_body;
    reader = void;
  }

  abbrev pub fetch_bookmark_metadata : Operation
  fetch_bookmark_metadata = record {
    required = "collectionId" ∷ "fetchMetadataRequest" ∷ [];
    in_query = [];
    content_type = some "application/json";
    authorized = true;
    template = "/v1/collections/{collectionId}/bookmarks/metadata";
    in_path = "collectionId" ∷ [];
    method = post;
    body = model "fetchMetadataRequest" fetch_metadata_request_to_json;
    reader = json_with bookmark_metadata_dto_from_json;
  }

  abbrev pub get_bookmark : Operation
  get_bookmark = record {
    required = "bookmarkId" ∷ [];
    in_query = [];
    content_type = none;
    authorized = true;
    template = "/v1/bookmarks/{bookmarkId}";
    in_path = "bookmarkId" ∷ [];
    method = get;
    body = no_body;
    reader = json_with (bookmark_dto_from_json dates);
  }

  abbrev pub get_bookmarks : Operation
  get_bookmarks = record {
    required = "collectionId" ∷ [];
    in_query = [];
    content_type = none;
    authorized = true;
    template = "/v1/collections/{collectionId}/bookmarks";
    in_path = "collectionId" ∷ [];
    method = get;
    body = no_body;
    reader = json_with (map_array (bookmark_dto_from_json dates));
  }

  abbrev pub get_favorites : Operation
  get_favorites = record {
    required = "spaceId" ∷ [];
    in_query = [];
    content_type = none;
    authorized = true;
    template = "/v1/spaces/{spaceId}/favorites";
    in_path = "spaceId" ∷ [];
    method = get;
    body = no_body;
    reader = json_with (map_array (bookmark_dto_from_json dates));
  }

  abbrev pub get_recent_bookmarks : Operation
  get_recent_bookmarks = record {
    required = "spaceId" ∷ [];
    in_query = "limit" ∷ [];
    content_type = none;
    authorized = true;
    template = "/v1/spaces/{spaceId}/bookmarks";
    in_path = "spaceId" ∷ [];
    method = get;
    body = no_body;
    reader = json_with (map_array (bookmark_dto_from_json dates));
  }

  abbrev pub lookup_bookmarks : Operation
  lookup_bookmarks = record {
    required = "spaceId" ∷ "url" ∷ [];
    in_query = "url" ∷ [];
    content_type = none;
    authorized = true;
    template = "/v1/spaces/{spaceId}/bookmarks/lookup";
    in_path = "spaceId" ∷ [];
    method = get;
    body = no_body;
    reader = json_with (map_array (bookmark_dto_from_json dates));
  }

  abbrev pub remove_favorite : Operation
  remove_favorite = record {
    required = "bookmarkId" ∷ [];
    in_query = [];
    content_type = none;
    authorized = true;
    template = "/v1/bookmarks/{bookmarkId}/favorite";
    in_path = "bookmarkId" ∷ [];
    method = delete;
    body = no_body;
    reader = void;
  }

  abbrev pub reset_bookmark_image : Operation
  reset_bookmark_image = record {
    required = "bookmarkId" ∷ [];
    in_query = [];
    content_type = none;
    authorized = true;
    template = "/v1/bookmarks/{bookmarkId}/image";
    in_path = "bookmarkId" ∷ [];
    method = delete;
    body = no_body;
    reader = json_with (bookmark_dto_from_json dates);
  }

  abbrev pub search_bookmarks : Operation
  search_bookmarks = record {
    required = "spaceId" ∷ "q" ∷ [];
    in_query = "q" ∷ [];
    content_type = none;
    authorized = true;
    template = "/v1/spaces/{spaceId}/bookmarks/search";
    in_path = "spaceId" ∷ [];
    method = get;
    body = no_body;
    reader = json_with (map_array (bookmark_dto_from_json dates));
  }

  abbrev pub set_bookmark_image : Operation
  set_bookmark_image = record {
    required = "bookmarkId" ∷ [];
    in_query = [];
    content_type = none;
    authorized = true;
    template = "/v1/bookmarks/{bookmarkId}/image";
    in_path = "bookmarkId" ∷ [];
    method = put;
    body = form_of ("file" ∷ "url" ∷ []);
    reader = json_with (bookmark_dto_from_json dates);
  }

  abbrev pub set_reaction : Operation
  set_reaction = record {
    required = "bookmarkId" ∷ "setReactionDto" ∷ [];
    in_query = [];
    content_type = some "application/json";
    authorized = true;
    template = "/v1/bookmarks/{bookmarkId}/reactions";
    in_path = "bookmarkId" ∷ [];
    method = put;
    body = model "setReactionDto" set_reaction_dto_to_json;
    reader = json_with (map_array reaction_dto_from_json);
  }

  abbrev pub update_bookmark : Operation
  update_bookmark = record {
    required = "bookmarkId" ∷ "updateBookmarkDto" ∷ [];
    in_query = [];
    content_type = some "application/json";
    authorized = true;
    template = "/v1/bookmarks/{bookmarkId}";
    in_path = "bookmarkId" ∷ [];
    method = put;
    body = model "updateBookmarkDto" update_bookmark_dto_to_json;
    reader = json_with (bookmark_dto_from_json dates);
  }

  -- All of them.
  abbrev pub bookmark_api_operations : List Operation
  bookmark_api_operations =
      add_favorite ∷ create_bookmark ∷ delete_bookmark ∷ fetch_bookmark_metadata ∷ get_bookmark
      ∷ get_bookmarks ∷ get_favorites ∷ get_recent_bookmarks ∷ lookup_bookmarks ∷ remove_favorite
      ∷ reset_bookmark_image ∷ search_bookmarks ∷ set_bookmark_image ∷ set_reaction
      ∷ update_bookmark ∷ []
