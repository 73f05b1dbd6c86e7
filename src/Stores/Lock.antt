-- ===== src/Stores/Lock.antt =====
-- ui/v1/src/lib/stores/lock.svelte.ts: the collections that a user has locked, shown while unlocked.
--
-- The item `unlock` of `sessionStorage` is a slot: nothing, a token with its end, or a text that is no JSON;
-- JSON without a token counts as an empty token, which is as falsy. A storage that is not available throws at every access. `now` is what `Date.now()` returns.
-- `keepUnlocked` is cut where it awaits the server: `keep_unlocked` up to there, `renewed` from there on.
pub mod Consistent
use ragbag.Common.{
  ℕ, ◌+◌, ◌-◌, ◌*◌, ◌≡◌, ◌≤◌, ◌<◌, refl, String, Bool, true, false, ◌||◌, ◌&&◌, not, Option, none,
  some, if◌then◌else◌, truthy, ltb, leb, arith, ◌⊎◌, inl, inr, suc, sym, ◌↔◌,
}
use ragbag.Client.{Reply, ok, failed}

pub data Slot : Type 0 where
  empty : Slot
  saved : String → ℕ → Slot
  corrupt : Slot

-- What the server grants: a token, and the time at which it ends.
pub record Grant : Type 0 where
  pub token : String
  pub expires_at : ℕ

pub record Lock : Type 0 where
  -- `lockState`
  pub unlocked : Bool
  pub version : ℕ
  pub token : Option String
  pub expires_at : ℕ
  pub renewing : Bool
  pub slot : Slot
  pub storage_available : Bool
  -- `unlockToken` of client.ts, which goes out with each request
  pub header : Option String

abbrev pub renew_below_ms : ℕ
renew_below_ms = 8 * 60 * 1000

abbrev slot_of : Option Grant → Slot
slot_of none = empty
slot_of (some g) = saved g.token g.expires_at

abbrev token_of : Option Grant → Option String
token_of none = none
token_of (some g) = some g.token

abbrev end_of : Option Grant → ℕ
end_of none = 0
end_of (some g) = g.expires_at

abbrev is_granted : Option Grant → Bool
is_granted none = false
is_granted (some g) = true

-- `lockState.unlocked !== !!next`
abbrev differs : Bool → Bool → Bool
differs true b = not b
differs false b = b

unfoldable pub apply : Option Grant → Lock → Lock
apply next s = record s {
  unlocked = is_granted next;
  version = if differs s.unlocked (is_granted next) then suc s.version else s.version;
  token = token_of next;
  expires_at = end_of next;
  slot = if s.storage_available then slot_of next else s.slot;
  header = token_of next;
}

abbrev pub initial : Slot → Bool → Lock
initial slot available = record {
  unlocked = false;
  version = 0;
  token = none;
  expires_at = 0;
  renewing = false;
  slot = slot;
  storage_available = available;
  header = none;
}

-- Resume an unlock from before a reload.
abbrev resume : ℕ → Slot → Lock → Lock
resume now empty s = s
resume now corrupt s = s
resume now (saved t e) s =
    if truthy (some t) && ltb now e
    then apply (some (record { token = t; expires_at = e })) s
    else record s { slot = empty }

unfoldable pub load : ℕ → Slot → Bool → Lock
unfolding apply
load now slot available =
    let s : Lock = initial slot available in if available then resume now slot s else s

unfoldable pub unlock : Reply Grant → Lock → Lock × Bool
unfolding apply
unlock failed s = (s, false)
unlock (ok g) s = (apply (some g) s, true)

unfoldable pub lock : Lock → Lock
unfolding apply
lock s = apply none s

unfoldable pub reset_lock : Lock → Lock
unfolding apply
reset_lock s = apply none s

-- Whether `keepUnlocked` goes on to ask the server.
unfoldable pub keep_unlocked : ℕ → Lock → Lock × Bool
unfolding lock
keep_unlocked now s =
    if not (truthy s.token) || s.renewing
    then (s, false)
    else if leb s.expires_at now
    then (lock s, false)
    else if ltb renew_below_ms (s.expires_at - now)
    then (s, false)
    else (record s { renewing = true }, true)

-- The rest of `keepUnlocked`, `finally` included, with the server's answer.
unfoldable pub renewed : Reply Grant → Lock → Lock
unfolding lock
renewed failed s = record (lock s) { renewing = false }
renewed (ok g) s =
    if truthy s.token
    then record (apply (some g) s) { renewing = false }
    else record s { renewing = false }

unfoldable pub check_expiry : ℕ → Lock → Lock
unfolding lock
check_expiry now s = if truthy s.token && leb s.expires_at now then lock s else s

-- What the browser may do to the store, in any order.
pub data Event : Type 0 where
  unlocks : Reply Grant → Event
  locks resets : Event
  activity : ℕ → Event
  renewal : Reply Grant → Event
  tick : ℕ → Event

-- An answer to a renewal only comes while one is under way.
unfoldable pub step : Lock → Event → Lock
unfolding unlock lock reset_lock keep_unlocked renewed check_expiry
step s (unlocks r) = (unlock r s).0
step s locks = lock s
step s resets = reset_lock s
step s (activity now) = (keep_unlocked now s).0
step s (renewal r) = if s.renewing then renewed r s else s
step s (tick now) = check_expiry now s

-- A renewal that is answered while there is a token puts the new one in its place; answered after the user
-- locked, it does not unlock again; one that fails locks; either way another may follow.
pub renewed_cases :
    (s : Lock) (g : Grant)
    → (s.token ≡ none → (renewed (ok g) s).token ≡ none)
      × (truthy s.token ≡ true → (renewed (ok g) s).token ≡ some g.token)
      × ((renewed failed s).token ≡ none)
      × ((renewed failed s).unlocked ≡ false)
      × ((renewed (ok g) s).renewing ≡ false)
      × ((renewed failed s).renewing ≡ false)
unfolding renewed
renewed_cases s g = ground arith

-- Activity asks the server for a renewal exactly if there is a token, no renewal is under way,
-- the token has not run out, and not more than `RENEW_BELOW_MS` are left.
pub keep_unlocked_iff :
    (now : ℕ) (s : Lock)
    → ((keep_unlocked now s).1 ≡ true) ↔ (
        (truthy s.token ≡ true)
        × (s.renewing ≡ false)
        × (now < s.expires_at)
        × (s.expires_at ≤ now + renew_below_ms))
unfolding keep_unlocked
keep_unlocked_iff now s = (λ h. ground arith, λ h. ground arith)

-- A tick after the end of the token locks, one before it changes nothing.
check_expiry_cases :
    (now : ℕ) (s : Lock)
    → (s.expires_at ≤ now → truthy (check_expiry now s).token ≡ false)
      × (now < s.expires_at → check_expiry now s ≡ s)
unfolding check_expiry
check_expiry_cases now s = (λ h. ground arith, λ h. ground arith)

-- Pages are told to load their data anew exactly when what they show changes.
version-apply :
    (next : Option Grant) (s : Lock)
    → ((apply next s).version ≡ s.version) ↔ ((apply next s).unlocked ≡ s.unlocked)
unfolding apply
version-apply next s = (λ h. ground arith, λ h. ground arith)
