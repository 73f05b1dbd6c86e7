-- ===== src/Sdk/Apis/CollectionApi.antt =====
-- ui/v1/src/lib/sdk/apis/CollectionApi.ts
use ragbag.Common.{true, none, some, List, [], ◌∷◌}
use ragbag.Sdk.Value.{Dates}
use ragbag.Sdk.Codec.{map_array}
use ragbag.Sdk.Runtime.Request.{delete, get, post, put}
use ragbag.Sdk.Apis.Operation.{Operation, model, no_body, untouched, json_with, void, whole}
use ragbag.Sdk.Models.CollectionDto.Nesting.{read_collection}
use ragbag.Sdk.Models.CollectionAccessDto.{collection_access_dto_from_json}
use ragbag.Sdk.Models.CollectionShareDto.{collection_share_dto_from_json}
use ragbag.Sdk.Models.CreateCollectionDto.{create_collection_dto_to_json}
use ragbag.Sdk.Models.ImportResultDto.{import_result_dto_from_json}
use ragbag.Sdk.Models.MoveCollectionDto.{move_collection_dto_to_json}
use ragbag.Sdk.Models.UpdateCollectionAccessDto.{update_collection_access_dto_to_json}
use ragbag.Sdk.Models.UpdateCollectionDto.{update_collection_dto_to_json}

module _ (dates : Dates) where
  abbrev pub create_collection : Operation
  create_collection = record {
    required = "spaceId" ∷ "createCollectionDto" ∷ [];
    in_query = [];
    content_type = some "application/json";
    authorized = true;
    template = "/v1/spaces/{spaceId}/collections";
    in_path = "spaceId" ∷ [];
    method = post;
    body = model "createCollectionDto" create_collection_dto_to_json;
    reader = json_with read_collection;
  }

  abbrev pub delete_collection : Operation
  delete_collection = record {
    required = "collectionId" ∷ [];
    in_query = [];
    content_type = none;
    authorized = true;
    template = "/v1/collections/{collectionId}";
    in_path = "collectionId" ∷ [];
    method = delete;
    body = no_body;
    reader = void;
  }

  abbrev pub export_collection : Operation
  export_collection = record {
    required = "collectionId" ∷ [];
    in_query = [];
    content_type = none;
    authorized = true;
    template = "/v1/collections/{collectionId}/export";
    in_path = "collectionId" ∷ [];
    method = get;
    body = no_body;
    reader = whole;
  }

  abbrev pub get_collection : Operation
  get_collection = record {
    required = "collectionId" ∷ [];
    in_query = [];
    content_type = none;
    authorized = true;
    template = "/v1/collections/{collectionId}";
    in_path = "collectionId" ∷ [];
    method = get;
    body = no_body;
    reader = json_with read_collection;
  }

  abbrev pub get_collection_access : Operation
  get_collection_access = record {
    required = "collectionId" ∷ [];
    in_query = [];
    content_type = none;
    authorized = true;
    template = "/v1/collections/{collectionId}/access";
    in_path = "collectionId" ∷ [];
    method = get;
    body = no_body;
    reader = json_with collection_access_dto_from_json;
  }

  abbrev pub get_collection_share : Operation
  get_collection_share = record {
    required = "collectionId" ∷ [];
    in_query = [];
    content_type = none;
    authorized = true;
    template = "/v1/collections/{collectionId}/share";
    in_path = "collectionId" ∷ [];
    method = get;
    body = no_body;
    reader = json_with (collection_share_dto_from_json dates);
  }

  abbrev pub get_collections : Operation
  get_collections = record {
    required = "spaceId" ∷ [];
    in_query = [];
    content_type = none;
    authorized = true;
    template = "/v1/spaces/{spaceId}/collections";
    in_path = "spaceId" ∷ [];
    method = get;
    body = no_body;
    reader = json_with (map_array read_collection);
  }

  abbrev pub import_collection : Operation
  import_collection = record {
    required = "collectionId" ∷ "body" ∷ [];
    in_query = "preview" ∷ [];
    content_type = some "application/json";
    authorized = true;
    template = "/v1/collections/{collectionId}/import";
    in_path = "collectionId" ∷ [];
    method = post;
    body = untouched "body";
    reader = json_with import_result_dto_from_json;
  }

  abbrev pub lock_collection : Operation
  lock_collection = record {
    required = "collectionId" ∷ [];
    in_query = [];
    content_type = none;
    authorized = true;
    template = "/v1/collections/{collectionId}/lock";
    in_path = "collectionId" ∷ [];
    method = put;
    body = no_body;
    reader = void;
  }

  abbrev pub mark_collection_seen : Operation
  mark_collection_seen = record {
    required = "collectionId" ∷ [];
    in_query = [];
    content_type = none;
    authorized = true;
    template = "/v1/collections/{collectionId}/seen";
    in_path = "collectionId" ∷ [];
    method = post;
    body = no_body;
    reader = void;
  }

  abbrev pub move_collection : Operation
  move_collection = record {
    required = "collectionId" ∷ "moveCollectionDto" ∷ [];
    in_query = [];
    content_type = some "application/json";
    authorized = true;
    template = "/v1/collections/{collectionId}/move";
    in_path = "collectionId" ∷ [];
    method = post;
    body = model "moveCollectionDto" move_collection_dto_to_json;
    reader = json_with read_collection;
  }

  abbrev pub share_collection : Operation
  share_collection = record {
    required = "collectionId" ∷ [];
    in_query = [];
    content_type = none;
    authorized = true;
    template = "/v1/collections/{collectionId}/share";
    in_path = "collectionId" ∷ [];
    method = put;
    body = no_body;
    reader = json_with (collection_share_dto_from_json dates);
  }

  abbrev pub unlock_collection : Operation
  unlock_collection = record {
    required = "collectionId" ∷ [];
    in_query = [];
    content_type = none;
    authorized = true;
    template = "/v1/collections/{collectionId}/lock";
    in_path = "collectionId" ∷ [];
    method = delete;
    body = no_body;
    reader = void;
  }

  abbrev pub unshare_collection : Operation
  unshare_collection = record {
    required = "collectionId" ∷ [];
    in_query = [];
    content_type = none;
    authorized = true;
    template = "/v1/collections/{collectionId}/share";
    in_path = "collectionId" ∷ [];
    method = delete;
    body = no_body;
    reader = void;
  }

  abbrev pub update_collection : Operation
  update_collection = record {
    required = "collectionId" ∷ "updateCollectionDto" ∷ [];
    in_query = [];
    content_type = some "application/json";
    authorized = true;
    template = "/v1/collections/{collectionId}";
    in_path = "collectionId" ∷ [];
    method = put;
    body = model "updateCollectionDto" update_collection_dto_to_json;
    reader = json_with read_collection;
  }

  abbrev pub update_collection_access : Operation
  update_collection_access = record {
    required = "collectionId" ∷ "updateCollectionAccessDto" ∷ [];
    in_query = [];
    content_type = some "application/json";
    authorized = true;
    template = "/v1/collections/{collectionId}/access";
    in_path = "collectionId" ∷ [];
    method = put;
    body = model "updateCollectionAccessDto" update_collection_access_dto_to_json;
    reader = json_with collection_access_dto_from_json;
  }

  -- All of them.
  abbrev pub collection_api_operations : List Operation
  collection_api_operations =
      create_collection ∷ delete_collection ∷ export_collection ∷ get_collection
      ∷ get_collection_access ∷ get_collection_share ∷ get_collections ∷ import_collection
      ∷ lock_collection ∷ mark_collection_seen ∷ move_collection ∷ share_collection
      ∷ unlock_collection ∷ unshare_collection ∷ update_collection ∷ update_collection_access ∷ []
