-- ===== src/Client/Pipeline.antt =====
-- ui/v1/src/lib/api/client.ts and sdk/runtime.ts together: a request that goes through `authMiddleware`, the
-- refresh that is itself a call of the API, and the request that is sent once more.
--
-- `fetch` is a function of a server's state. One request runs to its end here, so that the `await` of a refresh
-- that it starts runs the refresh. If another request has started one, `awaited` is what happens until that one
-- ends, with its success; it does not reject. Requests that share a refresh are `Refresh`.
pub mod Steps
pub mod Bounds
mod Tests
pub mod Traffic
use ragbag.Common.{
  String, Bool, true, false, Option, none, some, List, [], ◌∷◌, ◌++◌, if◌then◌else◌, truthy,
  nullish_or, not, ◌==◌,
}
use ragbag.Common.Dict.{lookup}
use ragbag.Sdk.Value.{Value, undefined, null, bool, num, text, obj, field, end, prop, is_nullish}
use ragbag.Sdk.Runtime.{Platform, shown}
use ragbag.Sdk.Runtime.Request.{
  FetchParams, Init, Response as ApiResponse, Outcome, returned, thrown, Async, Middleware,
  Configuration, fetch_api,
}
use ragbag.Sdk.Apis.Operation.{call}
use ragbag.Sdk.Apis.AuthenticationApi.{refresh}
use ragbag.Client.Defs.{
  Client, ok, failed, refresh_access_token, set_access_token, set_untyped_token,
}
use ragbag.Client.Interceptor.{Request, Response, Verdict, pass, wait, pre, post_first, post_resume}

-- The client, the server, and what was sent to it.
pub record World (Server : Type 0) : Type 0 where
  pub client : Client
  pub server : Server
  pub sent : List FetchParams

-- `import.meta.env.VITE_API_URL || (import.meta.env.DEV ? … : '/api')`
abbrev pub base_path : Option String → Bool → String
base_path url dev =
    if truthy url then nullish_or url "" else if dev then "http://localhost:8080/api" else "/api"

abbrev pub request_of : FetchParams → Request
request_of params = record { url = params.url; headers = some params.init.headers }

abbrev response_of : ApiResponse → Response
response_of response = record {
  status = response.status;
  setup = lookup "X-Ragbag-Setup" response.headers;
}

-- `{ ...init, headers }`
abbrev pub with_headers : FetchParams → Request → FetchParams
with_headers params request = record params {
  init = record params.init { headers = nullish_or request.headers [] };
}

-- `accessToken ?? undefined`, as the generated client uses it, which asks whether it is truthy.
abbrev pub token_given : Client → Option String
token_given c = elim c.untyped_token [
  | none ↦ c.access_token
  | some u ↦ if u.is_truthy then some u.written else none
]

-- `Boolean(value)`
abbrev truthy_value : Value → Bool
truthy_value undefined = false
truthy_value null = false
truthy_value (bool b) = b
truthy_value (num n) = not (n == 0)
truthy_value (text t) = truthy (some t)
truthy_value _ = true

module _ (platform : Platform) where
  -- `setAccessToken(response.accessToken); return true;`: what the server sent in its place is stored as it is.
  abbrev pub store_answer : Value → Client → Client × Bool
  store_answer (text token) c = refresh_access_token (ok token) c
  store_answer null c = (set_access_token none c, true)
  store_answer v c = (
    set_untyped_token (record { is_truthy = truthy_value v; written = shown platform v }) c,
    true,
  )

  -- The rest of `refreshAccessToken` after the call: a response that is null has no properties, so that it ends
  -- in the `catch` too.
  abbrev pub renewed_by : Outcome Value → Client → Client × Bool
  renewed_by (thrown e) c = refresh_access_token failed c
  renewed_by (returned v) c =
      if is_nullish v then refresh_access_token failed c else store_answer (prop v "accessToken") c

module _ {Server : Type 0} (fetch : FetchParams → Server → Server × Outcome ApiResponse)
    (awaited : World Server → World Server × Bool) (platform : Platform) (base : String) where
  abbrev pub window_fetch : FetchParams → Async (World Server) ApiResponse
  window_fetch params w =
      let (server, outcome) = fetch params w.server in
      (record w { server = server; sent = w.sent ++ params ∷ [] }, outcome)

  -- `anonConfig()`
  abbrev pub anon_config : Configuration (World Server)
  anon_config = record {
    base_path = base;
    access_token = none;
    headers = [];
    credentials = some "include";
    middleware = [];
    fetch = window_fetch;
  }

  abbrev pub renewed_session : World Server × Outcome Value → World Server × Outcome Bool
  renewed_session (w, outcome) =
      let (client, success) = renewed_by platform outcome w.client in
      (record w { client = record client { refreshing = false } }, returned success)

  -- `refreshAccessToken`, and what its `finally` does.
  unfoldable pub refresh_session : Async (World Server) Bool
  unfolding call refresh_access_token
  refresh_session w = renewed_session (
      call platform anon_config (λ init. init) (refresh platform.dates)
        (obj (field "refreshToken" (text "_cookie_") end)) w)

  abbrev pub send_again :
      FetchParams → World Server → Option Request → World Server × Outcome (Option ApiResponse)
  send_again params w none = (w, returned none)
  send_again params w (some request) =
      let (w', outcome) = window_fetch (with_headers params request) w in
      (w', elim outcome [ returned response ↦ returned (some response) | thrown e ↦ thrown e ])

  abbrev pub resumed :
      FetchParams → World Server × Outcome Bool → World Server × Outcome (Option ApiResponse)
  resumed params (w, thrown e) = (w, thrown e)
  resumed params (w, returned success) =
      let (client, request) = post_resume (request_of params) success w.client in
      send_again params (record w { client = client }) request

  -- `refreshPromise`, awaited: the refresh that is under way, or else one that starts here.
  abbrev pub await_refresh : Bool → World Server → World Server × Outcome Bool
  await_refresh true w = let (w', success) = awaited w in (w', returned success)
  await_refresh false w = refresh_session w

  abbrev pub handled :
      FetchParams → World Server → Client × Verdict → World Server × Outcome (Option ApiResponse)
  handled params w (client, pass) = (record w { client = client }, returned none)
  handled params w (client, wait) =
      resumed params (await_refresh w.client.refreshing (record w { client = client }))

  -- `authMiddleware`
  unfoldable pub auth_middleware : Middleware (World Server)
  unfolding pre post_first post_resume refresh_session lookup
  auth_middleware = record {
    pre =
        some (λ params w.
          (w, returned (some (with_headers params (pre w.client (request_of params))))));
    on_error = none;
    post = some (λ params response w.
        handled params w (post_first (request_of params) (response_of response) w.client));
  }

  -- `apiConfig()`
  unfoldable pub api_config : Client → Configuration (World Server)
  unfolding auth_middleware
  api_config client = record {
    base_path = base;
    access_token = token_given client;
    headers = [];
    credentials = some "include";
    middleware = auth_middleware ∷ [];
    fetch = window_fetch;
  }

  -- The requests of the signed-in user: `fetchApi` with `apiConfig()`.
  unfoldable pub send : FetchParams → Async (World Server) ApiResponse
  unfolding fetch_api api_config
  send params w = fetch_api (api_config w.client) params w
