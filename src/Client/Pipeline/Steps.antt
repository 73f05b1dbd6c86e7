-- ===== src/Client/Pipeline/Steps.antt =====
-- The stages of a request: client.ts and sdk/runtime.ts together.
use ragbag.Common.{
  ◌≡◌, refl, arith, String, Bool, Bool-cases, inl, inr, false, Option, none, some, [], ◌∷◌, ◌++◌,
  if◌then◌else◌, leb, ltb, ◌&&◌,
}
use ragbag.Common.Text.{◌<+>◌}
use ragbag.Sdk.Value.{Value, text, obj, undefined, field, end}
use ragbag.Sdk.Runtime.{Platform}
use ragbag.Sdk.Runtime.Mime.{is_json_mime}
use ragbag.Sdk.Runtime.Request.{
  FetchParams, Error, RequestOpts, Response as ApiResponse, Outcome, returned, thrown,
  response_error, rethrown, plain, post, body_of, request, create_fetch_params, fetch_api, url_of,
  run_pre, run_post, run_on_error,
}
use ragbag.Sdk.Apis.Operation.{call, raw, request_opts, value_of, json_with, fill_path}
use ragbag.Sdk.Apis.AuthenticationApi.{refresh}
use ragbag.Sdk.Models.LoginResponse.{login_response_from_json}
use ragbag.Client.Interceptor.{pre, post_first}
use ragbag.Client.Pipeline.{
  with_headers, request_of, response_of, handled, renewed_by, World, anon_config, refresh_session,
  auth_middleware, api_config, send,
}

body_of-undefined : (platform : Platform) → body_of platform [] (plain undefined) ≡ plain undefined
unfolding body_of is_json_mime
body_of-undefined platform = elim (Bool-cases (platform.is_blob undefined)) [
  | inl e ↦ rw e refl
  | inr e ↦ rw e refl
]

abbrev pub refresh_request : String → FetchParams
refresh_request base = record {
  url = base <+> "/auth/refresh";
  init = record {
    method = post;
    headers = [];
    body = plain undefined;
    credentials = some "include";
  };
}

abbrev refresh_opts : RequestOpts
refresh_opts = record {
  path = "/auth/refresh";
  method = post;
  headers = [];
  query = end;
  body = plain undefined;
}

opts-refresh :
    (platform : Platform) (params : Value)
    → request_opts platform none (refresh platform.dates) params ≡ returned refresh_opts
unfolding request_opts fill_path
opts-refresh platform params = refl

abbrev bare : {World : Type 0} → World × Outcome ApiResponse → World × Outcome ApiResponse
bare (w, thrown e) = (w, thrown (rethrown e))
bare (w, returned r) = (w, returned r)

abbrev pub successful : ApiResponse → Bool
successful r = leb 200 r.status && ltb r.status 300

-- What the call of the refresh comes back with.
abbrev pub refresh_result : Platform → Outcome ApiResponse → Outcome Value
refresh_result platform (thrown e) = thrown (rethrown e)
refresh_result platform (returned r) =
    if successful r
    then value_of platform (json_with login_response_from_json) r
    else thrown (response_error r)

-- The request as it leaves the middleware.
abbrev pub first : {Server : Type 0} → FetchParams → World Server → FetchParams
first params w = with_headers params (pre w.client (request_of params))

abbrev pub finish :
    {Server : Type 0}
    → ApiResponse
    → World Server × Outcome (Option ApiResponse)
    → World Server × Outcome ApiResponse
finish r (w, thrown e) = (w, thrown e)
finish r (w, returned none) = (w, returned r)
finish r (w, returned (some r')) = (w, returned r')

module _ {Server : Type 0} (fetch : FetchParams → Server → Server × Outcome ApiResponse)
    (awaited : World Server → World Server × Bool) (platform : Platform) (base : String) where
  abbrev after :
      FetchParams → World Server → Server × Outcome ApiResponse → World Server × Outcome ApiResponse
  after params w (server, outcome) =
      (record w { server = server; sent = w.sent ++ params ∷ [] }, outcome)

  fetch_api-on :
      (params : FetchParams) (w : World Server) (answered : Server × Outcome ApiResponse)
      → fetch params w.server ≡ answered
      → fetch_api (anon_config fetch awaited platform base) params w
        ≡ bare (after params w answered)
  unfolding fetch_api run_pre run_post run_on_error
  fetch_api-on params w (server, returned r) e = ground arith
  fetch_api-on params w (server, thrown er) e = ground arith

  params-refresh :
      (w : World Server)
      → create_fetch_params platform
          (anon_config fetch awaited platform base)
          (λ init. init)
          refresh_opts
          w
        ≡ (w, returned (refresh_request base))
  unfolding create_fetch_params url_of
  params-refresh w = rw (body_of-undefined platform) refl

  abbrev checked : World Server × Outcome ApiResponse → World Server × Outcome ApiResponse
  checked (w, thrown e) = (w, thrown e)
  checked (w, returned r) = (w, if successful r then returned r else thrown (response_error r))

  request-on :
      (w : World Server) (answered : Server × Outcome ApiResponse)
      → fetch (refresh_request base) w.server ≡ answered
      → request platform (anon_config fetch awaited platform base) (λ init. init) refresh_opts w
        ≡ checked (bare (after (refresh_request base) w answered))
  unfolding request
  request-on w (server, returned r) e =
      ground (arith, params-refresh w, fetch_api-on (refresh_request base) w (server, returned r) e)
  request-on w (server, thrown er) e =
      ground (arith, params-refresh w, fetch_api-on (refresh_request base) w (server, thrown er) e)

  abbrev answer : World Server × Outcome ApiResponse → World Server × Outcome Value
  answer (w, outcome) = (w, refresh_result platform outcome)

  call-on :
      (params : Value) (w : World Server) (answered : Server × Outcome ApiResponse)
      → fetch (refresh_request base) w.server ≡ answered
      → call platform
          (anon_config fetch awaited platform base)
          (λ init. init)
          (refresh platform.dates)
          params
          w
        ≡ answer (after (refresh_request base) w answered)
  unfolding call raw
  call-on params w answered e =
      ground (arith, opts-refresh platform params, request-on w answered e)

  pub refresh_session-on :
      (w : World Server) (server : Server) (outcome : Outcome ApiResponse)
      → fetch (refresh_request base) w.server ≡ (server, outcome)
      → refresh_session fetch awaited platform base w ≡ (
          let (client, success) = renewed_by platform (refresh_result platform outcome) w.client in
          (
            record {
              client = record client { refreshing = false };
              server = server;
              sent = w.sent ++ refresh_request base ∷ [];
            },
            returned success,
          ))
  unfolding refresh_session
  refresh_session-on w server (returned r) e =
      ground
        (arith, call-on (obj (field "refreshToken" (text "_cookie_") end)) w (server, returned r) e)
  refresh_session-on w server (thrown er) e =
      ground
        (arith, call-on (obj (field "refreshToken" (text "_cookie_") end)) w (server, thrown er) e)

  pub send-on :
      (params : FetchParams) (w : World Server) (server : Server) (r : ApiResponse)
      → fetch (first params w) w.server ≡ (server, returned r)
      → send fetch awaited platform base params w
        ≡ finish r (
            handled fetch awaited platform base
              (first params w)
              (record w { server = server; sent = w.sent ++ first params w ∷ [] })
              (post_first (request_of (first params w)) (response_of r) w.client))
  unfolding send fetch_api api_config auth_middleware run_pre run_post run_on_error
  send-on params w server r e = ground arith

  pub send-thrown :
      (params : FetchParams) (w : World Server) (server : Server) (er : Error)
      → fetch (first params w) w.server ≡ (server, thrown er)
      → send fetch awaited platform base params w
        ≡ (record w { server = server; sent = w.sent ++ first params w ∷ [] }, thrown (rethrown er))
  unfolding send fetch_api api_config auth_middleware run_pre run_post run_on_error
  send-thrown params w server er e = ground arith
