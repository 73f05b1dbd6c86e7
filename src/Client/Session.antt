-- ===== src/Client/Session.antt =====
-- client.ts: the token in memory and the one in `localStorage` stay the same, so a reload keeps the
-- session that the last operation left.
use ragbag.Common.{◌≡◌, refl, String, Bool, true, false, Option, none, some, List, [], ◌∷◌, truthy}
use ragbag.Common.Dict.{lookup, lookup-erase_self}
use ragbag.Client.Defs.{
  Client, Reply, ok, failed, storage_key, set_access_token, set_unlock_token, is_authenticated,
  login, take_login_password, complete_setup, change_password, verify_email, restore_backup,
  delete_account, logout, logout_everywhere, refresh_access_token,
}

-- The operations, each with what the server answers.
pub data Op : Type 0 where
  sign_in : String → Reply String → Op
  setup password verify refresh : Reply String → Op
  restore : Bool → Reply (Unit {0}) → Op
  delete leave leave_everywhere : Reply (Unit {0}) → Op
  unlock : Option String → Op
  take_password : Op

pub apply : Op → Client → Client
apply (sign_in w r) c = (login w r c).0
apply (setup r) c = (complete_setup r c).0
apply (password r) c = (change_password r c).0
apply (verify r) c = (verify_email r c).0
apply (refresh r) c = (refresh_access_token r c).0
apply (restore dry_run r) c = (restore_backup dry_run r c).0
apply (delete r) c = (delete_account r c).0
apply (leave r) c = (logout r c).0
apply (leave_everywhere r) c = (logout_everywhere r c).0
apply (unlock token) c = set_unlock_token token c
apply take_password c = (take_login_password c).1

pub apply_all : List Op → Client → Client
apply_all [] c = c
apply_all (o ∷ os) c = apply_all os (apply o c)

-- The server gives no empty token.
abbrev pub HasToken : Reply String → Type 0
HasToken (ok token) = truthy (some token) ≡ true
HasToken failed = Unit

abbrev pub GivesToken : Op → Type 0
GivesToken (sign_in w r) = HasToken r
GivesToken (setup r) = HasToken r
GivesToken (password r) = HasToken r
GivesToken (verify r) = HasToken r
GivesToken (refresh r) = HasToken r
GivesToken _ = Unit

abbrev pub IsStored : Client → Type 0
IsStored c = lookup storage_key c.local_storage ≡ c.access_token

-- Signing out, here or everywhere, always ends the session in memory, whatever the server answers; so
-- it does in the storage.
pub is_authenticated-leave :
    (r : Reply (Unit {0})) (c : Client)
    → (is_authenticated (logout r c).0 ≡ false)
      × (is_authenticated (logout_everywhere r c).0 ≡ false)
      × (lookup storage_key (logout r c).0.local_storage ≡ none)
      × (lookup storage_key (logout_everywhere r c).0.local_storage ≡ none)
unfolding is_authenticated logout logout_everywhere set_access_token
is_authenticated-leave failed c = (
  refl,
  refl,
  lookup-erase_self storage_key c.local_storage,
  lookup-erase_self storage_key c.local_storage,
)
is_authenticated-leave (ok _) c = (
  refl,
  refl,
  lookup-erase_self storage_key c.local_storage,
  lookup-erase_self storage_key c.local_storage,
)
