-- ===== src/Stores/Tests.antt =====
-- The stores on small runs, and the theorems at them.
use ragbag.Common.{
  length, ℕ, ◌+◌, ◌≡◌, ◌≢◌, ◌≤◌, ◌<◌, ◌↔◌, refl, String, true, false, none, some, List, [], ◌∷◌,
  get_elem?, truthy, arith, eq_iff,
}
use ragbag.Client.{ok, failed}
use ragbag.Sdk.Value.{null, obj, field, text, end}
use ragbag.Sdk.Models.DashboardDto.{DashboardDto}
use ragbag.Sdk.Models.DashboardSectionDto.{DashboardSectionDto}
use ragbag.Sdk.Models.DashboardSectionTypeEnum.{DashboardSectionTypeEnum, links, recent}
use ragbag.Sdk.Models.UpdateDashboardSectionDto.{UpdateDashboardSectionDto}
use ragbag.Sdk.Models.SpaceDto.{SpaceDto}
use ragbag.Sdk.Models.UserDto.{UserDto}
use ragbag.Stores.Lock.{
  Grant, Lock, saved, load, apply, step, locks, renewal, activity, keep_unlocked, keep_unlocked_iff,
  renewed, renewed_cases, renew_below_ms,
}
use ragbag.Stores.Lock.Consistent.{IsConsistent, load-IsConsistent, step-IsConsistent}
use ragbag.Stores.Preferences.{
  compact, oldest, Preferences, Store, missing, json, Stored, defaults, load_preferences, save,
  is_expanded,
}
use ragbag.Stores.Preferences.Loading.{
  IsUsable, load_preferences-IsUsable, load_preferences-none, load_preferences-save,
}
use ragbag.Stores.Preferences.Expanding.Refinement.{set_all, changed_all, set_all-refines}
use ragbag.Stores.Spaces.{Session, IsOwn, start_space_id, start_space_id-IsOwn}
use ragbag.Stores.Dashboard.{Keeps, Pins, at, pin_to_dashboard, pin_to_dashboard-at}
use ragbag.Stores.Toast.{
  Toast, Toasts, show_toast, dismiss_toast, show_toast-IsValid, dismiss_toast-IsValid,
}
use ragbag.Stores.Toast as Toasting

abbrev grant : Grant
grant = record { token = "u1"; expires_at = 900000 }

abbrev unlocked : Lock
unlocked = load 100000 (saved "u0" 500000) true

renewing : (step unlocked (activity 100000)).renewing ≡ true
unfolding load apply step keep_unlocked
renewing = refl

relocked : (step (step unlocked (activity 100000)) locks).unlocked ≡ false
unfolding load apply step
relocked = refl

step-IsConsistent_example : IsConsistent (step unlocked (renewal (ok grant)))
step-IsConsistent_example =
    step-IsConsistent unlocked (renewal (ok grant)) refl
      (load-IsConsistent 100000 (saved "u0" 500000) true)

renewed_cases_example :
    (unlocked.token ≡ none → (renewed (ok grant) unlocked).token ≡ none)
    × (truthy unlocked.token ≡ true → (renewed (ok grant) unlocked).token ≡ some "u1")
    × ((renewed failed unlocked).token ≡ none)
    × ((renewed failed unlocked).unlocked ≡ false)
    × ((renewed (ok grant) unlocked).renewing ≡ false)
    × ((renewed failed unlocked).renewing ≡ false)
renewed_cases_example = renewed_cases unlocked grant

keep_unlocked_iff_example : ((keep_unlocked 100000 unlocked).1 ≡ true) ↔ (
    (truthy unlocked.token ≡ true)
    × (unlocked.renewing ≡ false)
    × (100000 < unlocked.expires_at)
    × (unlocked.expires_at ≤ 100000 + renew_below_ms))
keep_unlocked_iff_example = keep_unlocked_iff 100000 unlocked

abbrev shown : Toasts String
shown = record {
  list = record { id = 1; text = "saved"; action = none } ∷ [];
  next_id = 2;
  timers = [];
}

shown-IsValid : Toasting.IsValid shown
shown-IsValid = record { few = omega arith; rising = (omega arith, omega arith) }

abbrev section : DashboardSectionTypeEnum → DashboardSectionDto
section kind = record { id = none; title = "Mine"; type = kind; bookmarks = [] }

abbrev dashboard : DashboardDto
dashboard = record { customized = true; sections = section recent ∷ section links ∷ [] }

pin_to_dashboard-at_example :
    (layout : List UpdateDashboardSectionDto) × (pin_to_dashboard "b1" (at 1) dashboard
      ≡ some layout)
    × (length layout ≡ 2)
    × ((sent : UpdateDashboardSectionDto) × (get_elem? layout 1 ≡ some sent)
        × Pins "b1" (section links) sent)
    × ((j : ℕ) (other : DashboardSectionDto)
        → 1 ≢ j
        → get_elem? dashboard.sections j ≡ some other
        → (sent : UpdateDashboardSectionDto) × (get_elem? layout j ≡ some sent) × Keeps other sent)
pin_to_dashboard-at_example = pin_to_dashboard-at "b1" 1 dashboard (section links) refl refl

abbrev fresh : Store
fresh = record {
  preferences = defaults;
  user = none;
  storage = λ user. missing;
  storage_available = true;
}

abbrev chosen : Preferences
chosen = record {
  link_view = compact;
  link_sort = oldest;
  sidebar_width = 300;
  expanded = "c1" ∷ "c2" ∷ [];
  open_folders = "f1" ∷ [];
}

chosen-IsUsable : IsUsable chosen
chosen-IsUsable = record {
  wide_enough = omega arith;
  narrow_enough = omega arith;
  expanded_once = (refl, (refl, tt));
}

abbrev used : Store
used = record fresh { preferences = chosen; user = some "u" }

abbrev odd : String → Stored
odd user = json (obj (field "linkView" (text "tiles") (field "expanded" (text "c1") end)))

loads_odd :
    load_preferences "u" (record fresh { storage = odd })
    ≡ some (record fresh { user = some "u"; storage = odd })
unfolding load_preferences
loads_odd = refl

load_preferences-IsUsable_example : IsUsable defaults
load_preferences-IsUsable_example =
    load_preferences-IsUsable "u" (record fresh { storage = odd })
      (record fresh { user = some "u"; storage = odd }) loads_odd

abbrev null_stored : Store
null_stored = record fresh { storage = λ user. json null }

load_preferences-none_example :
    (load_preferences "u" null_stored ≡ none)
    ↔ ((null_stored.storage_available ≡ true) × (null_stored.storage "u" ≡ json null))
load_preferences-none_example = load_preferences-none "u" null_stored (λ h. cc)

load_preferences-save_example :
    load_preferences "u" (record (save used) { preferences = defaults; user = none })
    ≡ some (save used)
load_preferences-save_example = load_preferences-save "u" used refl refl chosen-IsUsable

set_all-refines_example :
    ((id : String)
      → is_expanded id (set_all (("c3", true) ∷ ("c1", false) ∷ []) used)
        ≡ changed_all (("c3", true) ∷ ("c1", false) ∷ []) (λ k. is_expanded k used) id)
    × (IsUsable used.preferences
        → IsUsable (set_all (("c3", true) ∷ ("c1", false) ∷ []) used).preferences)
set_all-refines_example = set_all-refines (("c3", true) ∷ ("c1", false) ∷ []) used

abbrev space : String → SpaceDto
space id = record {
  id = id;
  name = "Home";
  description = none;
  icon_id = none;
  role = none;
  permissions = none;
  discoverable = none;
  join_role = none;
  new_count = none;
  welcome_message = none;
  welcome_html = none;
  welcomed = none;
}

abbrev user : String → UserDto
user id = record {
  id = id;
  username = "ada";
  display_name = none;
  email = "ada@example.org";
  avatar_id = none;
  instance_admin = none;
  has_pin = none;
  start_space_id = some "gone";
  must_change_password = none;
  open_reports = none;
}

abbrev session : Session
session = record {
  spaces = space "s1" ∷ space "s2" ∷ [];
  loaded = true;
  me = some (user "u1");
  loading = false;
  local_storage = ("last_space:u1", "s2") ∷ [];
  storage_available = true;
}

opens_last : start_space_id ("s1" ∷ []) session ≡ some "s2"
unfolding start_space_id
opens_last = refl

start_space_id-IsOwn_example : IsOwn session (start_space_id ("s1" ∷ []) session)
start_space_id-IsOwn_example = start_space_id-IsOwn ("s1" ∷ []) session

u1_ne_u2 : ◌≢◌ {A = String} "u1" "u2"
u1_ne_u2 h = ground (arith, eq_iff "u1" "u2")
