-- ===== src/Sdk/Apis/Operation.antt =====
-- ui/v1/src/lib/sdk/apis: what an operation of the API does.
--
-- The generator writes the three methods of each operation by one pattern. `request_opts`, `raw` and `call` are
-- that pattern, step by step, and an `Operation` is what differs: which parameters must be there, which go into
-- the query and the path, the headers, the body, and how the response is read. Parameters are a
-- JavaScript object.
pub mod Paths
use Prim.Native.String
use ragbag.Common.{
  ◌≡◌, refl, String, Bool, true, false, Option, none, some, List, [], ◌∷◌, ◌++◌, if◌then◌else◌,
  truthy, nullish_or,
}
use ragbag.Common.Dict.{insert}
use ragbag.Common.Text.{◌<+>◌, strip_prefix}
use ragbag.Sdk.Value.{Value, undefined, null, Fields, field, end, is_nullish, prop}
use ragbag.Sdk.Codec.{map_array}
use ragbag.Sdk.Runtime.{Platform, shown}
use ragbag.Sdk.Runtime.Uri.{encode_uri_component}
use ragbag.Sdk.Runtime.Request.{
  Headers, Method, Body, plain, form, RequestOpts, Init, Response, Outcome, returned, thrown,
  required_error, native_error, Async, Configuration, ◌>>=◌, pure, of_outcome, request,
}

pub data BodySource : Type 0 where
  no_body : BodySource
  -- `…ToJSON(requestParameters['name'])`
  model : String → (Value → Option Value) → BodySource
  -- `requestParameters['name'] as any`
  untouched : String → BodySource
  -- a `FormData` of those that are there
  form_of : List String → BodySource

pub data ResponseReader : Type 0 where
  -- `VoidApiResponse`, and those whose `value()` is the content as it is: JSON, or a file without its name
  void whole : ResponseReader
  -- `JSONApiResponse` with a transformer
  json_with : (Value → Option Value) → ResponseReader

pub record Operation : Type 0 where
  pub required : List String
  pub in_query : List String
  pub content_type : Option String
  pub authorized : Bool
  pub template : String
  pub in_path : List String
  pub method : Method
  pub body : BodySource
  pub reader : ResponseReader

-- `if (requestParameters['name'] == null) throw …`, for each name
abbrev pub first_missing : List String → Value → Option String
first_missing [] params = none
first_missing (name ∷ names) params =
    if is_nullish (prop params name) then some name else first_missing names params

-- `if (requestParameters['name'] != null) queryParameters['name'] = …`, for each name
abbrev pub query_of : List String → Value → Fields
query_of [] params = end
query_of (name ∷ names) params =
    let rest = query_of names params in
    if is_nullish (prop params name) then rest else field name (prop params name) rest

abbrev pub form_fields : List String → Value → List (String × Value)
form_fields [] params = []
form_fields (name ∷ names) params =
    let rest = form_fields names params in
    if is_nullish (prop params name) then rest else (name, prop params name) ∷ rest

abbrev content_header : Option String → Headers
content_header none = []
content_header (some content_type) = ("Content-Type", content_type) ∷ []

-- `this.configuration.accessToken`: a token that is empty is none.
abbrev pub headers_of : Operation → Option String → Headers
headers_of op token =
    if op.authorized
    then if truthy token
      then insert "Authorization" ("Bearer " <+> nullish_or token "")
          (content_header op.content_type)
      else content_header op.content_type
    else content_header op.content_type

-- `text.replace(pattern, replacement)`, for a pattern that is not empty and a replacement without `$`.
unfoldable pub replace_first : String → String → String → String
unfolding strip_prefix
replace_first pattern replacement String.[] = ""
replace_first pattern replacement (String.◌∷◌ c s) =
    let later = String.◌∷◌ c (replace_first pattern replacement s) in
    elim (strip_prefix pattern (String.◌∷◌ c s)) [ none ↦ later | some rest ↦ replacement <+> rest ]

abbrev placeholder : String → String
placeholder name = "{" <+> name <+> "}"

unfoldable pub fill_path : Platform → Value → List String → String → String
unfolding replace_first encode_uri_component shown
fill_path platform params [] path = path
fill_path platform params (name ∷ names) path = fill_path platform params names (
    replace_first (placeholder name) (encode_uri_component (shown platform (prop params name)))
      path)

abbrev made : Option Value → Outcome Body
made none = thrown native_error
made (some v) = returned (plain v)

abbrev pub body_from : BodySource → Value → Outcome Body
body_from no_body params = returned (plain undefined)
body_from (model name to_json) params = made (to_json (prop params name))
body_from (untouched name) params = returned (plain (prop params name))
body_from (form_of names) params = returned (form (form_fields names params))

module _ (platform : Platform) where
  abbrev pub with_body : Option String → Operation → Value → Outcome Body → Outcome RequestOpts
  with_body token op params (thrown e) = thrown e
  with_body token op params (returned body) = returned (record {
    path = fill_path platform params op.in_path op.template;
    method = op.method;
    headers = headers_of op token;
    query = query_of op.in_query params;
    body = body;
  })

  -- `…RequestOpts`
  unfoldable pub request_opts : Option String → Operation → Value → Outcome RequestOpts
  unfolding insert fill_path
  request_opts token op params = elim (first_missing op.required params) [
    | some name ↦ thrown (required_error name)
    | none ↦ with_body token op params (body_from op.body params)
  ]

  -- `new …ApiResponse(response).value()`
  unfoldable pub value_of : ResponseReader → Response → Outcome Value
  value_of void response = returned undefined
  value_of whole response = returned response.content
  value_of (json_with from_json) response = elim (from_json response.content) [
    | none ↦ thrown native_error
    | some v ↦ returned v
  ]

  module _ {World : Type 0} (config : Configuration World) (override : Init → Init) where
    -- `…Raw`
    unfoldable pub raw : Operation → Value → Async World Response
    unfolding request_opts request
    raw op params = do
      opts ← of_outcome (request_opts config.access_token op params)
      request platform config override opts

    unfoldable pub call : Operation → Value → Async World Value
    unfolding raw value_of
    call op params = do response ← raw op params; of_outcome (value_of op.reader response)
