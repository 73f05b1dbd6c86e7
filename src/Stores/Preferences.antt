-- ===== src/Stores/Preferences.antt =====
-- ui/v1/src/lib/stores/preferences.svelte.ts: display settings per user and device.
--
-- What `localStorage` holds for the user is `Stored`: nothing, a text that is no JSON, or the value of its
-- JSON; a storage that is not available throws. Widths are whole numbers of pixels, which `Math.round` leaves
-- alone. `load_preferences` returns none where the source throws.
pub mod Loading
pub mod Expanding
use ragbag.Common.{
  ℕ, ◌≡◌, ◌≤◌, refl, String, Bool, true, false, not, ◌&&◌, Option, none, some, List, [], ◌∷◌, ◌++◌,
  if◌then◌else◌, min, max, ◌===◌, includes, keep,
}
use ragbag.Common.Text.{◌<+>◌}
use ragbag.Sdk.Value.{
  Value, undefined, null, num, text, arr, obj, Items, nil, cons, field, end, is_nullish, prop,
}

pub data LinkView : Type 0 where
  cards compact list : LinkView

pub data LinkSort : Type 0 where
  newest oldest name domain : LinkSort

pub data Stored : Type 0 where
  missing : Stored
  malformed : Stored
  json : Value → Stored

pub record Preferences : Type 0 where
  pub link_view : LinkView
  pub link_sort : LinkSort
  pub sidebar_width : ℕ
  pub expanded : List String
  pub open_folders : List String

pub record Store : Type 0 where
  pub preferences : Preferences
  -- the user whose `storageKey` is set
  pub user : Option String
  -- what the storage holds, by user
  pub storage : String → Stored
  pub storage_available : Bool

abbrev pub width_min : ℕ
width_min = 200

abbrev pub width_max : ℕ
width_max = 480

abbrev pub width_default : ℕ
width_default = 256

abbrev pub defaults : Preferences
defaults = record {
  link_view = cards;
  link_sort = newest;
  sidebar_width = width_default;
  expanded = [];
  open_folders = [];
}

abbrev pub view_text : LinkView → String
view_text cards = "cards"
view_text compact = "compact"
view_text list = "list"

abbrev pub sort_text : LinkSort → String
sort_text newest = "newest"
sort_text oldest = "oldest"
sort_text name = "name"
sort_text domain = "domain"

-- The stored view if it is one of `LINK_VIEWS`, else the default.
abbrev pub view_of : Value → LinkView
view_of (text s) =
    if "cards" === s
    then cards
    else if "compact" === s
    then compact
    else if "list" === s
    then list
    else cards
view_of _ = cards

abbrev pub sort_of : Value → LinkSort
sort_of (text s) =
    if "newest" === s
    then newest
    else if "oldest" === s
    then oldest
    else if "name" === s
    then name
    else if "domain" === s
    then domain
    else newest
sort_of _ = newest

unfoldable pub clamp_sidebar_width : ℕ → ℕ
clamp_sidebar_width width = min width_max (max width_min width)

abbrev pub width_of : Value → ℕ
width_of (num n) = clamp_sidebar_width n
width_of _ = width_default

-- `Array.isArray(v) ? v.filter((id) => typeof id === 'string') : []`
abbrev pub texts_in : Items → List String
texts_in nil = []
texts_in (cons (text s) vs) = s ∷ texts_in vs
texts_in (cons _ vs) = texts_in vs

abbrev pub texts_of : Value → List String
texts_of (arr vs) = texts_in vs
texts_of _ = []

-- `[...new Set([...])]`: the first of each text stays.
abbrev pub distinct_after : List String → List String → List String
distinct_after seen [] = []
distinct_after seen (x ∷ xs) =
    let rest = distinct_after (x ∷ seen) xs in
    let same = distinct_after seen xs in if includes seen x then same else x ∷ rest

abbrev pub distinct : List String → List String
distinct xs = distinct_after [] xs

-- `JSON.parse(localStorage.getItem(storageKey) ?? '{}')`, `{}` in the `catch` too.
abbrev pub parsed : Bool → Stored → Value
parsed false item = obj end
parsed true missing = obj end
parsed true malformed = obj end
parsed true (json v) = v

unfoldable pub loaded : List String → Value → Preferences
unfolding clamp_sidebar_width
loaded before stored = record {
  link_view = view_of (prop stored "linkView");
  link_sort = sort_of (prop stored "linkSort");
  sidebar_width = width_of (prop stored "sidebarWidth");
  expanded = distinct (texts_of (prop stored "expanded") ++ before);
  open_folders = texts_of (prop stored "openFolders");
}

-- Reading a property of null throws.
unfoldable pub load_preferences : String → Store → Option Store
unfolding loaded
load_preferences user s =
    let stored : Value = parsed s.storage_available (s.storage user) in
    if is_nullish stored
    then none
    else some (record s { user = some user; preferences = loaded s.preferences.expanded stored })

abbrev texts_value : List String → Items
texts_value [] = nil
texts_value (s ∷ ss) = cons (text s) (texts_value ss)

-- `{ ...preferences }`, as its JSON is parsed again.
abbrev pub saved_value : Preferences → Value
saved_value p = obj (
    field "linkView" (text (view_text p.link_view)) (
      field "linkSort" (text (sort_text p.link_sort)) (
        field "sidebarWidth" (num p.sidebar_width) (
          field "expanded" (arr (texts_value p.expanded))
            (field "openFolders" (arr (texts_value p.open_folders)) end)))))

abbrev pub store_at : String → Stored → (String → Stored) → String → Stored
store_at user item storage other = if user === other then item else storage other

unfoldable pub save : Store → Store
save s = elim s.user [
  | none ↦ s
  | some user ↦
      if s.storage_available
      then record s { storage = store_at user (json (saved_value s.preferences)) s.storage }
      else s
]

unfoldable pub set_link_view : LinkView → Store → Store
unfolding save
set_link_view view s = save (record s { preferences = record s.preferences { link_view = view } })

unfoldable pub set_link_sort : LinkSort → Store → Store
unfolding save
set_link_sort sort s = save (record s { preferences = record s.preferences { link_sort = sort } })

unfoldable pub set_sidebar_width : ℕ → Store → Store
unfolding clamp_sidebar_width
set_sidebar_width width s = record s {
  preferences = record s.preferences { sidebar_width = clamp_sidebar_width width };
}

unfoldable pub save_sidebar_width : Store → Store
unfolding save
save_sidebar_width s = save s

unfoldable pub is_expanded : String → Store → Bool
is_expanded id s = includes s.preferences.expanded id

abbrev without : String → List String → List String
without id ids = keep (λ own. not (own === id)) ids

-- `expanded === isExpanded(collectionId)` on Booleans.
abbrev pub same_bool : Bool → Bool → Bool
same_bool true b = b
same_bool false b = not b

abbrev pub toggled : String → Bool → List String → List String
toggled id true ids = ids ++ id ∷ []
toggled id false ids = without id ids

unfoldable pub set_expanded : String → Bool → Store → Store
unfolding save is_expanded
set_expanded id expanded s =
    if same_bool expanded (is_expanded id s)
    then s
    else save (record s {
      preferences = record s.preferences { expanded = toggled id expanded s.preferences.expanded };
    })

unfoldable pub is_folder_open : String → Store → Bool
is_folder_open id s = includes s.preferences.open_folders id

unfoldable pub set_folder_open : String → Bool → Store → Store
unfolding save is_folder_open
set_folder_open id open_it s =
    if same_bool open_it (is_folder_open id s)
    then s
    else save (record s {
      preferences = record s.preferences {
        open_folders = toggled id open_it s.preferences.open_folders;
      };
    })

unfoldable pub link_list_class : LinkView → String
link_list_class cards = "grid gap-4 sm:grid-cols-2 xl:grid-cols-3"
link_list_class compact = "grid gap-3 sm:grid-cols-2 xl:grid-cols-3 2xl:grid-cols-4"
link_list_class list =
    "flex flex-col divide-y divide-gray-200 rounded-xl border border-gray-200 bg-white dark:divide-gray-800 dark:border-gray-800 dark:bg-gray-900"
