-- ===== src/Sdk/Apis/ImageApi.antt =====
-- ui/v1/src/lib/sdk/apis/ImageApi.ts
use ragbag.Common.{false, none, List, [], ◌∷◌}
use ragbag.Sdk.Value.{Dates}
use ragbag.Sdk.Runtime.Request.{get}
use ragbag.Sdk.Apis.Operation.{Operation, no_body, whole}

module _ (dates : Dates) where
  abbrev pub get_image : Operation
  get_image = record {
    required = "imageId" ∷ [];
    in_query = [];
    content_type = none;
    authorized = false;
    template = "/v1/images/{imageId}";
    in_path = "imageId" ∷ [];
    method = get;
    body = no_body;
    reader = whole;
  }

  -- All of them.
  abbrev pub image_api_operations : List Operation
  image_api_operations = get_image ∷ []
