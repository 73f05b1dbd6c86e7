-- ===== src/Client/Interceptor.antt =====
-- client.ts, `withUnlock` and `authMiddleware`: what is added to every request, and what happens to its
-- response. The handler of a response is cut where it awaits the refresh: `post_first` runs up to the
-- `await`, `post_resume` from there on.
--
-- Headers are dictionaries under the names that the client writes; it spells each in one way.
use ragbag.Common.{
  ℕ, ◌≡◌, ◌↔◌, ◌⊎◌, refl, String, Bool, true, false, ◌&&◌, not, Option, none, some, [],
  if◌then◌else◌, truthy, ◌==◌, ◌===◌, nullish_or, arith,
}
use ragbag.Common.Dict.{lookup, insert, lookup-insert, lookup-insert_self, lookup-erase_self}
use ragbag.Common.Text.{◌<+>◌, has_substring, ends_with}
use ragbag.Client.Defs.{Storage, Client, storage_key, set_access_token, app_base, go_to}

pub record Request : Type 0 where
  pub url : String
  -- `init.headers`
  pub headers : Option Storage

-- A response's status and its header `X-Ragbag-Setup`.
pub record Response : Type 0 where
  pub status : ℕ
  pub setup : Option String

abbrev pub unlock_header : String
unlock_header = "X-Ragbag-Unlock"

abbrev pub auth_header : String
auth_header = "Authorization"

-- The branch of `withUnlock` on the token's truth value.
abbrev add_unlock : Option String → Option Storage → Option Storage
add_unlock none headers = headers
add_unlock (some token) headers =
    if truthy (some token)
    then some (insert unlock_header token (nullish_or headers []))
    else headers

unfoldable pub with_unlock : Client → Option Storage → Option Storage
unfolding insert
with_unlock c headers = add_unlock c.unlock_token headers

unfoldable pub pre : Client → Request → Request
unfolding with_unlock
pre c request = record request { headers = with_unlock c request.headers }

pub data Verdict : Type 0 where
  -- `return;`: the response goes on to the caller
  pass : Verdict
  -- `await refreshPromise`
  wait : Verdict

-- `if (!window.location.pathname.endsWith('/setup')) window.location.href = …`
abbrev pub to_setup : Client → Client
to_setup c = if ends_with c.location.pathname "/setup" then c else go_to (app_base c <+> "/setup") c

unfoldable pub post_first : Request → Response → Client → Client × Verdict
unfolding app_base ends_with has_substring
post_first request response c =
    if response.status == 403 && truthy response.setup
    then (to_setup c, pass)
    else if not (response.status == 401)
    then (c, pass)
    else if has_substring request.url "/auth/"
    then (c, pass)
    else (record c { refreshing = true }, wait)

-- `Bearer ${accessToken}`: a token that is null is written out as such.
abbrev pub bearer : Option String → String
bearer none = "Bearer null"
bearer (some token) = "Bearer " <+> token

-- The same for whatever `accessToken` is.
abbrev pub bearer_of : Client → String
bearer_of c = elim c.untyped_token [
  | none ↦ bearer c.access_token
  | some u ↦ "Bearer " <+> u.written
]

-- The original request with the new token, as it is sent once more.
unfoldable pub retry_of : Client → Request → Request
unfolding with_unlock insert
retry_of c request = record request {
  headers = some (insert auth_header (bearer_of c) (nullish_or (with_unlock c request.headers) []));
}

-- After the `await`: the request to send once more, if the refresh succeeded.
unfoldable pub post_resume : Request → Bool → Client → Client × Option Request
unfolding set_access_token app_base retry_of
post_resume request false c = (go_to (app_base c <+> "/login") (set_access_token none c), none)
post_resume request true c = (c, some (retry_of c request))

-- `headers.get(name)`
abbrev pub header : String → Request → Option String
header name request = lookup name (nullish_or request.headers [])

lookup-add_unlock :
    (token : Option String) (headers : Option Storage) (name : String)
    → lookup name (nullish_or (add_unlock token headers) []) ≡ (
        if truthy token && (unlock_header === name)
        then token
        else lookup name (nullish_or headers []))
lookup-add_unlock none headers name = refl
lookup-add_unlock (some token) headers name =
    ground (arith, lookup-insert unlock_header name token (nullish_or headers []))

-- A request leaves with the unlock header exactly if there is an unlock token that is not empty; its
-- other headers and its address are those that it was given.
header-pre :
    (c : Client) (request : Request) (name : String)
    → ((pre c request).url ≡ request.url)
      × (header name (pre c request) ≡ (
          if truthy c.unlock_token && (unlock_header === name)
          then c.unlock_token
          else header name request))
unfolding pre with_unlock
header-pre c request name = (refl, lookup-add_unlock c.unlock_token request.headers name)

-- A response makes its handler wait for a refresh exactly if it is a 401 for an address outside
-- `/auth/`.
post_first-wait :
    (request : Request) (response : Response) (c : Client)
    → ((post_first request response c).1 ≡ wait)
      ↔ ((response.status ≡ 401) × (has_substring request.url "/auth/" ≡ false))
unfolding post_first
post_first-wait request response c = (λ h. ground arith, λ h. ground arith)

-- Up to there, no response changes the session: token, storages and unlock stay as they are, and a
-- refresh that is under way stays under way.
post_first-keeps :
    (request : Request) (response : Response) (c : Client)
    → let c' = (post_first request response c).0 in
      (c'.access_token ≡ c.access_token)
      × (c'.local_storage ≡ c.local_storage)
      × (c'.session_storage ≡ c.session_storage)
      × (c'.unlock_token ≡ c.unlock_token)
      × (c.refreshing ≡ true → c'.refreshing ≡ true)
unfolding post_first
post_first-keeps request response c = ground arith

-- A response that makes its handler wait marks the refresh as under way, and changes nothing else.
pub post_first_cases :
    (request : Request) (response : Response) (c : Client)
    → ((post_first request response c).1 ≡ pass)
      ⊎ (post_first request response c ≡ (record c { refreshing = true }, wait))
unfolding post_first
post_first_cases request response c = ground arith

pub post_first-refreshing :
    (request : Request) (response : Response) (c : Client)
    → ((post_first request response c).1 ≡ pass
        → (post_first request response c).0.refreshing ≡ c.refreshing)
      × ((post_first request response c).1 ≡ wait
          → (post_first request response c).0.refreshing ≡ true)
unfolding post_first
post_first-refreshing request response c = (λ h. ground arith, λ h. ground arith)

pub post_resume-refreshing :
    (request : Request) (success : Bool) (c : Client)
    → (post_resume request success c).0.refreshing ≡ c.refreshing
unfolding post_resume
post_resume-refreshing request false c = refl
post_resume-refreshing request true c = refl

-- After a failed refresh the request is given up, the user is signed out and sent to the login page;
-- after a successful one the request goes out again, to the same address, with the token that is
-- current by then, and the client is not changed.
post_resume_cases :
    (request : Request) (c : Client)
    → let (lost, none_sent) = post_resume request false c in
      let (same, sent) = post_resume request true c in
      (none_sent ≡ none)
      × (lost.access_token ≡ none)
      × (lookup storage_key lost.local_storage ≡ none)
      × (lost.location.href ≡ some (app_base c <+> "/login"))
      × (same ≡ c)
      × (sent ≡ some (retry_of c request))
      × ((retry_of c request).url ≡ request.url)
      × (header auth_header (retry_of c request) ≡ some (bearer_of c))
unfolding post_resume
post_resume_cases request c = (
  refl,
  refl,
  lookup-erase_self storage_key c.local_storage,
  refl,
  refl,
  refl,
  refl,
  lookup-insert_self auth_header (bearer_of c) (nullish_or (with_unlock c request.headers) []),
)
