-- ===== src/Sdk/Runtime/Request.antt =====
-- `BaseAPI` of sdk/runtime.ts: how a request is made from its options, and goes through the middleware.
--
-- The functions run in a world that `fetch` and the middleware read and change, and end by returning or by
-- throwing. Headers are dictionaries of texts, so none is undefined. What a promise comes to is its outcome.
use ragbag.Common.{
  ℕ, String, Bool, true, false, ◌&&◌, Option, none, some, List, [], ◌∷◌, if◌then◌else◌, leb, ltb,
  nullish_or, or_else,
}
use ragbag.Common.Dict.{lookup, insert}
use ragbag.Common.Text.{◌<+>◌}
use ragbag.Sdk.Value.{Value, undefined, Fields, end, field}
use ragbag.Sdk.Runtime.{Platform}
use ragbag.Sdk.Runtime.Query.{querystring}
use ragbag.Sdk.Runtime.Mime.{is_json_mime}

abbrev pub Headers : Type 0
Headers = List (String × String)

pub data Method : Type 0 where
  get post put patch delete : Method

-- A body before and after it is made a text: `json` is the text of a value, `form` a `FormData`.
pub data Body : Type 0 where
  plain json : Value → Body
  form : List (String × Value) → Body

pub record RequestOpts : Type 0 where
  pub path : String
  pub method : Method
  pub headers : Headers
  pub query : Fields
  pub body : Body

pub record Init : Type 0 where
  pub method : Method
  pub headers : Headers
  pub body : Body
  pub credentials : Option String

pub record FetchParams : Type 0 where
  pub url : String
  pub init : Init

pub record Response : Type 0 where
  pub status : ℕ
  pub headers : Headers
  -- what `json()` or `blob()` gives
  pub content : Value

pub data Error : Type 0 where
  required_error : String → Error
  response_error : Response → Error
  fetch_error : Error → Error
  -- an error of the platform, an `Error` or another value
  native_error other_value : Error

pub data Outcome (A : Type 0) : Type 0 where
  returned : A → Outcome A
  thrown : Error → Outcome A

-- What is done in a world.
abbrev pub Async : Type 0 → Type 0 → Type 0
Async World A = World → World × Outcome A

pub record Middleware (World : Type 0) : Type 0 where
  pub pre : Option (FetchParams → Async World (Option FetchParams))
  pub on_error : Option (FetchParams → Error → Option Response → Async World (Option Response))
  pub post : Option (FetchParams → Response → Async World (Option Response))

pub record Configuration (World : Type 0) : Type 0 where
  pub base_path : String
  pub access_token : Option String
  pub headers : Headers
  pub credentials : Option String
  pub middleware : List (Middleware World)
  pub fetch : FetchParams → Async World Response

-- `Object.assign({}, a, b)`
abbrev pub assign : Headers → Headers → Headers
assign a [] = a
assign a ((name, value) ∷ b) = assign (insert name value a) b

abbrev pub is_empty : Fields → Bool
is_empty end = true
is_empty (field k v fs) = false

-- The address: parameters follow a question mark, if there are any.
abbrev with_query : String → Option String → Outcome String
with_query url none = thrown native_error
with_query url (some query) = returned (url <+> "?" <+> query)

module _ (platform : Platform) where
  unfoldable pub url_of : String → RequestOpts → Outcome String
  unfolding querystring
  url_of base_path opts =
      if is_empty opts.query
      then returned (base_path <+> opts.path)
      else with_query (base_path <+> opts.path) (querystring platform opts.query "")

  -- `JSON.stringify` gives nothing for what is undefined.
  abbrev stringified : Value → Body
  stringified undefined = plain undefined
  stringified v = json v

  unfoldable pub body_of : Headers → Body → Body
  unfolding is_json_mime lookup
  body_of headers (form fields) = form fields
  body_of headers (json v) = json v
  body_of headers (plain v) =
      if platform.is_blob v
      then plain v
      else if is_json_mime (lookup "Content-Type" headers)
      then stringified v
      else plain v

-- `e instanceof Error`
abbrev pub rethrown : Error → Error
rethrown other_value = other_value
rethrown e = fetch_error e

module _ {World : Type 0} where
  abbrev pub pure : {A : Type 0} → A → Async World A
  pure a w = (w, returned a)

  abbrev pub throw : {A : Type 0} → Error → Async World A
  throw e w = (w, thrown e)

  infixl 5 ◌>>=◌
  abbrev pub ◌>>=◌ : {A B : Type 0} → Async World A → (A → Async World B) → Async World B
  ◌>>=◌ m f w =
      let (w', outcome) = m w in elim outcome [ returned a ↦ f a w' | thrown e ↦ (w', thrown e) ]

  abbrev pub of_outcome : {A : Type 0} → Outcome A → Async World A
  of_outcome o w = (w, o)

  unfoldable pub create_fetch_params :
      Platform → Configuration World → (Init → Init) → RequestOpts → Async World FetchParams
  unfolding url_of body_of insert
  create_fetch_params platform config override opts = do
    url ← of_outcome (url_of platform config.base_path opts)
    let headers = assign config.headers opts.headers
    let init = override (record {
      method = opts.method;
      headers = headers;
      body = opts.body;
      credentials = config.credentials;
    })
    pure (record { url = url; init = record init { body = body_of platform headers init.body } })

  abbrev pre_of : Middleware World → FetchParams → Async World FetchParams
  pre_of m params = elim m.pre [
    | none ↦ pure params
    | some pre ↦ pre params >>= λ changed. pure (nullish_or changed params)
  ]

  unfoldable pub run_pre : List (Middleware World) → FetchParams → Async World FetchParams
  run_pre [] params = pure params
  run_pre (m ∷ ms) params = do params' ← pre_of m params; run_pre ms params'

  abbrev on_error_of :
      Middleware World → FetchParams → Error → Option Response → Async World (Option Response)
  on_error_of m params e response = elim m.on_error [
    | none ↦ pure response
    | some on_error ↦ on_error params e response >>= λ found. pure (or_else found response)
  ]

  unfoldable pub run_on_error :
      List (Middleware World)
      → FetchParams
      → Error
      → Option Response
      → Async World (Option Response)
  run_on_error [] params e response = pure response
  run_on_error (m ∷ ms) params e response = do
    response' ← on_error_of m params e response
    run_on_error ms params e response'

  abbrev post_of : Middleware World → FetchParams → Response → Async World Response
  post_of m params response = elim m.post [
    | none ↦ pure response
    | some after ↦ after params response >>= λ changed. pure (nullish_or changed response)
  ]

  unfoldable pub run_post : List (Middleware World) → FetchParams → Response → Async World Response
  run_post [] params response = pure response
  run_post (m ∷ ms) params response = do
    response' ← post_of m params response
    run_post ms params response'

  abbrev recovered : Error → Option Response → Async World Response
  recovered e none = throw (rethrown e)
  recovered e (some response) = pure response

  abbrev attempted : List (Middleware World) → FetchParams → Outcome Response → Async World Response
  attempted ms params (returned response) = pure response
  attempted ms params (thrown e) = run_on_error ms params e none >>= recovered e

  unfoldable pub fetch_api : Configuration World → FetchParams → Async World Response
  unfolding run_pre run_on_error run_post
  fetch_api config params = do
    params' ← run_pre config.middleware params
    response ← λ w.
        let (w', outcome) = config.fetch params' w in attempted config.middleware params' outcome w'
    run_post config.middleware params' response

  unfoldable pub request :
      Platform → Configuration World → (Init → Init) → RequestOpts → Async World Response
  unfolding create_fetch_params fetch_api
  request platform config override opts = do
    params ← create_fetch_params platform config override opts
    response ← fetch_api config params
    if leb 200 response.status && ltb response.status 300
        then pure response
        else throw (response_error response)
