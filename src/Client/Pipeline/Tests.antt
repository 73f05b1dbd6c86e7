-- ===== src/Client/Pipeline/Tests.antt =====
-- A server that wants a new token, and the theorems at it.
use ragbag.Common.{ℕ, zero, suc, ◌≡◌, refl, Bool, false, none, some, [], ◌∷◌}
use ragbag.Common.Dict.{insert, erase}
use ragbag.Common.Text.{◌<+>◌, has_substring, strip_prefix}
use ragbag.Sdk.Value.{Value, text, num, undefined, obj, field, end}
use ragbag.Sdk.Samples.{platform}
use ragbag.Sdk.Runtime.Request.{
  FetchParams, Response as ApiResponse, Outcome, returned, thrown, native_error, get, plain,
}
use ragbag.Client.Defs.{Client, app_base, storage_key}
use ragbag.Client.Interceptor.{with_unlock, pre}
use ragbag.Client.Pipeline.{World, send}
use ragbag.Client.Pipeline.Steps.{first, refresh_request}
use ragbag.Client.Pipeline.Traffic.{send-retries, send-gives_up}

abbrev answered : ℕ → Value → ApiResponse
answered status content = record { status = status; headers = []; content = content }

abbrev token_answer : ApiResponse
token_answer = answered 200 (obj (field "access_token" (text "t1") end))

-- The first request is refused; the others are answered.
abbrev fetch : FetchParams → ℕ → ℕ × Outcome ApiResponse
fetch params zero = (1, returned (answered 401 undefined))
fetch params (suc zero) = (2, returned token_answer)
fetch params (suc (suc n)) = (3, returned (answered 200 (num n)))

abbrev fetch_once : FetchParams → ℕ → ℕ × Outcome ApiResponse
fetch_once params zero = (1, returned (answered 401 undefined))
fetch_once params (suc n) = (n, thrown native_error)

abbrev client : Client
client = record {
  access_token = some "t0";
  untyped_token = none;
  unlock_token = some "u0";
  login_password = none;
  refreshing = false;
  local_storage = (storage_key, "t0") ∷ [];
  session_storage = [];
  location = record { origin = "https://r.example"; pathname = "/app/"; search = ""; href = none };
}

abbrev world : World ℕ
world = record { client = client; server = 0; sent = [] }

abbrev spaces : FetchParams
spaces = record {
  url = "/api/v1/spaces";
  init = record {
    method = get;
    headers = ("Authorization", "Bearer t0") ∷ [];
    body = plain undefined;
    credentials = some "include";
  };
}

outside_auth : has_substring spaces.url "/auth/" ≡ false
unfolding has_substring strip_prefix
outside_auth = refl

-- The refresh that another request began fails.
abbrev awaited : World ℕ → World ℕ × Bool
awaited w = (record w { client = record w.client { refreshing = false } }, false)

abbrev retried : FetchParams
retried = record spaces {
  init = record spaces.init {
    headers = ("Authorization", "Bearer t1") ∷ ("X-Ragbag-Unlock", "u0") ∷ [];
  };
}

send-retries_example : send fetch awaited platform "/api" spaces world ≡ (
  record {
    client = record client { access_token = some "t1"; local_storage = (storage_key, "t1") ∷ [] };
    server = 3;
    sent = first spaces world ∷ refresh_request "/api" ∷ retried ∷ [];
  },
  returned (answered 200 (num 0)),
)
unfolding insert erase with_unlock pre
send-retries_example =
    send-retries fetch awaited platform "/api" spaces world 1 (answered 401 undefined) refl
      outside_auth refl 2 3 token_answer (answered 200 (num 0)) "t1" refl refl refl refl refl

send-gives_up_example : send fetch_once awaited platform "/api" spaces world ≡ (
  record {
    client = record client {
      access_token = none;
      local_storage = erase storage_key client.local_storage;
      location = record client.location { href = some (app_base client <+> "/login") };
    };
    server = 0;
    sent = first spaces world ∷ refresh_request "/api" ∷ [];
  },
  returned (answered 401 undefined),
)
send-gives_up_example =
    send-gives_up fetch_once awaited platform "/api" spaces world 1 (answered 401 undefined) refl
      outside_auth refl 0 (thrown native_error) refl refl tt
