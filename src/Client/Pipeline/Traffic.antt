-- ===== src/Client/Pipeline/Traffic.antt =====
-- What a request sends, and what comes of it: client.ts and sdk/runtime.ts together.
use ragbag.Common.{
  ◌≡◌, refl, ap, ◌∙◌, arith, String, Bool, true, false, none, some, [], ◌∷◌, ◌++◌, append_assoc,
  truthy, if◌then◌else◌, nullish_or,
}
use ragbag.Common.Dict.{insert, erase, erase_twice}
use ragbag.Common.Text.{◌<+>◌, has_substring}
use ragbag.Sdk.Value.{text, prop}
use ragbag.Sdk.Runtime.{Platform}
use ragbag.Sdk.Runtime.Request.{FetchParams, Response as ApiResponse, Outcome, returned, thrown}
use ragbag.Sdk.Apis.Operation.{value_of}
use ragbag.Sdk.Models.LoginResponse.{login_response_from_json}
use ragbag.Client.Defs.{
  storage_key, Client, ok, failed, refresh_access_token, set_access_token, app_base,
}
use ragbag.Client.Interceptor.{wait, post_first, post_resume, retry_of, auth_header, with_unlock}
use ragbag.Client.Pipeline.{
  World, request_of, response_of, renewed_by, refresh_session, resumed, await_refresh, handled,
  send,
}
use ragbag.Client.Pipeline.Steps.{
  refresh_request, successful, refresh_result, refresh_session-on, first, finish, send-on,
}

answer_token :
    (platform : Platform) (r : ApiResponse) (token : String) (c : Client)
    → successful r ≡ true
    → prop r.content "access_token" ≡ text token
    → renewed_by platform (refresh_result platform (returned r)) c
      ≡ refresh_access_token (ok token) c
unfolding value_of login_response_from_json
answer_token platform r token c h e = ground arith

-- No answer at all, or one whose status is not of the successful ones.
abbrev pub IsRefused : Outcome ApiResponse → Type 0
IsRefused (thrown e) = Unit
IsRefused (returned r) = successful r ≡ false

answer_refused :
    (platform : Platform) (outcome : Outcome ApiResponse) (c : Client)
    → IsRefused outcome
    → renewed_by platform (refresh_result platform outcome) c ≡ refresh_access_token failed c
answer_refused platform (thrown e) c h = refl
answer_refused platform (returned r) c h = ground arith

module _ {Server : Type 0} (fetch : FetchParams → Server → Server × Outcome ApiResponse)
    (awaited : World Server → World Server × Bool) (platform : Platform) (base : String) where
  module _ (params : FetchParams) (w : World Server) (s1 : Server) (r1 : ApiResponse)
      (unauthorized : r1.status ≡ 401) (outside : has_substring params.url "/auth/" ≡ false)
      (sent : fetch (first params w) w.server ≡ (s1, returned r1)) where
    waits :
        post_first (request_of (first params w)) (response_of r1) w.client
        ≡ (record w.client { refreshing = true }, wait)
    unfolding post_first
    waits = ground arith

    -- The world in which the answer is looked at.
    abbrev here : World Server
    here = record w { server = s1; sent = w.sent ++ first params w ∷ [] }

    -- The world in which the refresh begins.
    abbrev asking : World Server
    asking = record {
      client = record w.client { refreshing = true };
      server = s1;
      sent = w.sent ++ first params w ∷ [];
    }

    asks :
        w.client.refreshing ≡ false
        → send fetch awaited platform base params w
          ≡ finish r1 (
              resumed fetch awaited platform base
                (first params w)
                (refresh_session fetch awaited platform base asking))
    asks idle =
        send-on fetch awaited platform base params w s1 r1 sent
        ∙ ap (λ v. finish r1 (handled fetch awaited platform base (first params w) here v)) waits
        ∙ ap
            (λ b. finish r1 (
              resumed fetch awaited platform base (first params w)
                (await_refresh fetch awaited platform base b asking)))
            idle

    -- If no refresh is under way, and the server answers a request outside `/auth/` with 401, the refresh with a
    -- token, and the second try at all, then exactly three requests are sent: the request, the refresh, and the
    -- request once more, whose `Authorization` header is set to the new token and which is otherwise as the request
    -- was. The answer to the second try is what the caller gets, and the client keeps the new token, in the storage
    -- too unless it is empty.
    pub send-retries :
        (s2 s3 : Server) (r2 r3 : ApiResponse) (token : String)
        → w.client.refreshing ≡ false
        → fetch (refresh_request base) s1 ≡ (s2, returned r2)
        → successful r2 ≡ true
        → prop r2.content "access_token" ≡ text token
        → let one = first params w in
          let again : FetchParams = record one {
            init = record one.init {
              headers =
                  insert auth_header
                    ("Bearer " <+> token)
                    (nullish_or (with_unlock w.client (some one.init.headers)) []);
            };
          } in
          fetch again s2 ≡ (s3, returned r3)
          → send fetch awaited platform base params w ≡ (
            record {
              client = record w.client {
                access_token = some token;
                untyped_token = none;
                local_storage =
                    if truthy (some token)
                    then insert storage_key token w.client.local_storage
                    else erase storage_key w.client.local_storage;
                refreshing = false;
              };
              server = s3;
              sent = w.sent ++ one ∷ refresh_request base ∷ again ∷ [];
            },
            returned r3,
          )
    unfolding refresh_access_token post_resume set_access_token retry_of with_unlock
    send-retries s2 s3 r2 r3 token idle e2 good found e3 =
        asks idle
        ∙ rw
            (
              refresh_session-on fetch awaited platform base asking s2 (returned r2) e2,
              answer_token platform r2 token asking.client good found,
            )
            (rw e3 (simp append_assoc))

    -- If no refresh is under way, the server answers a request outside `/auth/` with 401, and the refresh fails, by
    -- an error or by its status, then nothing more is sent: the client forgets its token, in the storage too, goes
    -- to the login page, and the caller gets the 401.
    pub send-gives_up :
        (s2 : Server) (outcome : Outcome ApiResponse)
        → w.client.refreshing ≡ false
        → fetch (refresh_request base) s1 ≡ (s2, outcome)
        → IsRefused outcome
        → send fetch awaited platform base params w ≡ (
          record {
            client = record w.client {
              access_token = none;
              untyped_token = none;
              local_storage = erase storage_key w.client.local_storage;
              refreshing = false;
              location = record w.client.location { href = some (app_base w.client <+> "/login") };
            };
            server = s2;
            sent = w.sent ++ first params w ∷ refresh_request base ∷ [];
          },
          returned r1,
        )
    unfolding refresh_access_token post_resume set_access_token app_base
    send-gives_up s2 outcome idle e2 lost =
        asks idle
        ∙ rw
            (
              refresh_session-on fetch awaited platform base asking s2 outcome e2,
              answer_refused platform outcome asking.client lost,
              append_assoc w.sent (first params w ∷ []) (refresh_request base ∷ []),
              erase_twice storage_key w.client.local_storage,
            )
            refl
