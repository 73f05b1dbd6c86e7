-- ===== src/Client/Defs.antt =====
-- ui/v1/src/lib/api/client.ts: the module's variables, the browser's storage and location, and the
-- operations that the rest of the client calls.
--
-- The server is not modelled here: what a call of the generated API comes back with is an argument,
-- a `Reply`. The browser's storages are dictionaries; they are taken to be available, since the
-- module already reads `localStorage` while it is loaded.
use ragbag.Common.{String, Bool, true, false, Option, none, some, List, if◌then◌else◌, truthy}
use ragbag.Common.Dict.{lookup, insert, erase}
use ragbag.Common.Text.{◌<+>◌, strip_prefix, starts_with}

abbrev pub Storage : Type 0
Storage = List (String × String)

-- `window.location`, and the address that was last assigned to `window.location.href`.
pub record Location : Type 0 where
  pub origin : String
  pub pathname : String
  pub search : String
  pub href : Option String

-- A value in the place of a token that is neither null nor a text: whether it is truthy, and its text.
pub record Untyped : Type 0 where
  pub is_truthy : Bool
  pub written : String

pub record Client : Type 0 where
  -- `accessToken`, if it is null or a text
  pub access_token : Option String
  -- `accessToken`, if it is anything else: an answer of the server is not checked
  pub untyped_token : Option Untyped
  pub unlock_token : Option String
  pub login_password : Option String
  -- `refreshPromise !== null`
  pub refreshing : Bool
  pub local_storage : Storage
  pub session_storage : Storage
  pub location : Location

-- The outcome of an API call: the promise's value, or a rejection.
pub data Reply {ℓ} (A : Type ℓ) : Type ℓ where
  ok : A → Reply A
  failed : Reply A

abbrev pub storage_key : String
storage_key = "access_token"

-- The module's variables right after it was loaded.
unfoldable pub load : Storage → Storage → Location → Client
unfolding lookup
load local session place = record {
  access_token = lookup storage_key local;
  untyped_token = none;
  unlock_token = none;
  login_password = none;
  refreshing = false;
  local_storage = local;
  session_storage = session;
  location = place;
}

-- The branch of `setAccessToken` on the token's truth value.
abbrev pub store_token : Option String → Storage → Storage
store_token none local = erase storage_key local
store_token (some t) local =
    if truthy (some t) then insert storage_key t local else erase storage_key local

unfoldable pub set_access_token : Option String → Client → Client
unfolding insert erase
set_access_token token c = record c {
  access_token = token;
  untyped_token = none;
  local_storage = store_token token c.local_storage;
}

-- `setAccessToken` of a value that is no text, `undefined` for one.
unfoldable pub set_untyped_token : Untyped → Client → Client
unfolding insert erase
set_untyped_token u c = record c {
  access_token = none;
  untyped_token = some u;
  local_storage =
      if u.is_truthy
      then insert storage_key u.written c.local_storage
      else erase storage_key c.local_storage;
}

unfoldable pub set_unlock_token : Option String → Client → Client
set_unlock_token token c = record c { unlock_token = token }

-- `accessToken !== null`
unfoldable pub is_authenticated : Client → Bool
is_authenticated c = elim c.untyped_token [
  | some u ↦ true
  | none ↦ elim c.access_token [ none ↦ false | some t ↦ true ]
]

unfoldable pub app_base : Client → String
unfolding strip_prefix
app_base c = if starts_with c.location.pathname "/app" then "/app" else ""

abbrev pub go_to : String → Client → Client
go_to address c = record c { location = record c.location { href = some address } }

-- The promise of `login`: rejected, or fulfilled.
unfoldable pub login : String → Reply String → Client → Client × Bool
unfolding set_access_token
login password failed c = (c, false)
login password (ok token) c =
    (record (set_access_token (some token) c) { login_password = some password }, true)

unfoldable pub take_login_password : Client → Option String × Client
take_login_password c = (c.login_password, record c { login_password = none })

-- `completeSetup`, `changePassword` and `verifyEmail` end alike: a new token, or a rejection.
abbrev pub take_token : Reply String → Client → Client × Bool
take_token failed c = (c, false)
take_token (ok token) c = (set_access_token (some token) c, true)

unfoldable pub complete_setup : Reply String → Client → Client × Bool
unfolding set_access_token
complete_setup r c = take_token r c

unfoldable pub change_password : Reply String → Client → Client × Bool
unfolding set_access_token
change_password r c = take_token r c

unfoldable pub verify_email : Reply String → Client → Client × Bool
unfolding set_access_token
verify_email r c = take_token r c

-- `restoreBackup`: a restore, unlike a dry run, signs out.
unfoldable pub restore_backup {ℓ} : {A : Type ℓ} → Bool → Reply A → Client → Client × Reply A
unfolding set_access_token
restore_backup dry_run failed c = (c, failed)
restore_backup dry_run (ok summary) c = (if dry_run then c else set_access_token none c, ok summary)

unfoldable pub delete_account : Reply (Unit {0}) → Client → Client × Bool
unfolding set_access_token
delete_account failed c = (c, false)
delete_account (ok _) c = (set_access_token none c, true)

-- `try { await … } finally { setAccessToken(null) }`
abbrev sign_out : Reply (Unit {0}) → Client → Client × Bool
sign_out failed c = (set_access_token none c, false)
sign_out (ok _) c = (set_access_token none c, true)

unfoldable pub logout : Reply (Unit {0}) → Client → Client × Bool
unfolding set_access_token
logout r c = sign_out r c

unfoldable pub logout_everywhere : Reply (Unit {0}) → Client → Client × Bool
unfolding set_access_token
logout_everywhere r c = sign_out r c

-- `refreshAccessToken` never rejects: a failure signs out.
unfoldable pub refresh_access_token : Reply String → Client → Client × Bool
unfolding set_access_token
refresh_access_token failed c = (set_access_token none c, false)
refresh_access_token (ok token) c = (set_access_token (some token) c, true)

unfoldable pub share_link : Client → String → String
unfolding app_base
share_link c token = c.location.origin <+> app_base c <+> "/share/" <+> token
