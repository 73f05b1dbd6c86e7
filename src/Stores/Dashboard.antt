-- ===== src/Stores/Dashboard.antt =====
-- ui/v1/src/lib/stores/dashboard.ts: pinning a link to a section of the user's dashboard.
--
-- A section shows links that the server delivers whole; the layout that is stored names them by their ids.
use ragbag.Common.{
  length, ◌∙◌, ℕ, zero, suc, ◌≡◌, ◌≢◌, ◌↔◌, refl, String, Bool, true, false, Option, none, some,
  List, [], ◌∷◌, ◌++◌, if◌then◌else◌, get_elem?, set, includes, arith, map, nullish_or, ◌⊎◌,
  Bool-cases, inl, inr, ap,
}
use ragbag.Sdk.Models.DashboardDto.{DashboardDto}
use ragbag.Sdk.Models.DashboardSectionDto.{DashboardSectionDto}
use ragbag.Sdk.Models.DashboardSectionTypeEnum.{DashboardSectionTypeEnum, links}
use ragbag.Sdk.Models.UpdateDashboardSectionDto.{UpdateDashboardSectionDto}
use ragbag.Sdk.Models.BookmarkDto.{BookmarkDto}

abbrev pub is_links : DashboardSectionTypeEnum → Bool
is_links links = true
is_links _ = false

abbrev bookmark_ids : List BookmarkDto → List String
bookmark_ids [] = []
bookmark_ids (b ∷ bs) = b.id ∷ bookmark_ids bs

-- One section of `toLayout`.
abbrev pub layout_of : DashboardSectionDto → UpdateDashboardSectionDto
layout_of section = record {
  title = section.title;
  type = section.type;
  bookmark_ids = if is_links section.type then some (bookmark_ids section.bookmarks) else none;
}

unfoldable pub to_layout : DashboardDto → List UpdateDashboardSectionDto
to_layout dashboard = map layout_of dashboard.sections

-- The parameter `target: number | string`.
pub data Target : Type 0 where
  at : ℕ → Target
  titled : String → Target

-- `section.bookmarkIds?.includes(bookmarkId)`
abbrev pub holds : UpdateDashboardSectionDto → String → Bool
holds section id = elim section.bookmark_ids [ none ↦ false | some ids ↦ includes ids id ]

abbrev pub add_bookmark : String → UpdateDashboardSectionDto → UpdateDashboardSectionDto
add_bookmark id section =
    if holds section id
    then section
    else record section { bookmark_ids = some (nullish_or section.bookmark_ids [] ++ id ∷ []) }

abbrev pub pin_at :
    String
    → ℕ
    → Option UpdateDashboardSectionDto
    → List UpdateDashboardSectionDto
    → Option (List UpdateDashboardSectionDto)
pin_at id i none layout = none
pin_at id i (some section) layout =
    if is_links section.type then some (set layout i (add_bookmark id section)) else none

-- The layout that `pinToDashboard` sends for a loaded dashboard; none where it throws.
unfoldable pub pin_to_dashboard :
    String → Target → DashboardDto → Option (List UpdateDashboardSectionDto)
unfolding to_layout
pin_to_dashboard id (at i) dashboard =
    let layout : List UpdateDashboardSectionDto = to_layout dashboard in
    pin_at id i (get_elem? layout i) layout
pin_to_dashboard id (titled title) dashboard = some (
    to_layout dashboard
    ++ record { title = title; type = links; bookmark_ids = some (id ∷ []) } ∷ [])

pin_at-none :
    (id : String) (i : ℕ) (found : Option UpdateDashboardSectionDto)
    (layout : List UpdateDashboardSectionDto)
    → (pin_at id i found layout ≡ none) ↔ (
        (found ≡ none)
        ⊎ ((s : UpdateDashboardSectionDto) × (found ≡ some s) × (is_links s.type ≡ false)))
pin_at-none id i none layout = (λ h. inl refl, λ h. refl)
pin_at-none id i (some s) layout = (λ h. inr (s, refl, ground arith), λ h. ground arith)

module _ {A : Type 0} where
  get_elem?-set_self :
      (xs : List A) (i : ℕ) (x y : A) → get_elem? xs i ≡ some y → get_elem? (set xs i x) i ≡ some x
  get_elem?-set_self [] i x y h = cc
  get_elem?-set_self (z ∷ zs) zero x y h = refl
  get_elem?-set_self (z ∷ zs) (suc i) x y h = get_elem?-set_self zs i x y h

  get_elem?-set_ne :
      (xs : List A) (i j : ℕ) (x : A) → i ≢ j → get_elem? (set xs i x) j ≡ get_elem? xs j
  get_elem?-set_ne [] i j x h = refl
  get_elem?-set_ne (z ∷ zs) zero zero x h = absurd (h refl)
  get_elem?-set_ne (z ∷ zs) zero (suc j) x h = refl
  get_elem?-set_ne (z ∷ zs) (suc i) zero x h = refl
  get_elem?-set_ne (z ∷ zs) (suc i) (suc j) x h = get_elem?-set_ne zs i j x (λ e. h (ap suc e))

  length-set : (xs : List A) (i : ℕ) (x : A) → length (set xs i x) ≡ length xs
  length-set [] i x = refl
  length-set (z ∷ zs) zero x = refl
  length-set (z ∷ zs) (suc i) x = ap suc (length-set zs i x)

-- Pinning to the section at an index throws exactly if there is no such section or it holds no links of
-- its own; pinning to a new section never does.
pin_to_dashboard-none :
    (id : String) (i : ℕ) (title : String) (dashboard : DashboardDto)
    → ((pin_to_dashboard id (at i) dashboard ≡ none) ↔ (
        (get_elem? (to_layout dashboard) i ≡ none)
        ⊎ ((s : UpdateDashboardSectionDto) × (get_elem? (to_layout dashboard) i ≡ some s)
            × (is_links s.type ≡ false))))
      × (pin_to_dashboard id (titled title) dashboard ≢ none)
unfolding pin_to_dashboard
pin_to_dashboard-none id i title dashboard =
    (pin_at-none id i (get_elem? (to_layout dashboard) i) (to_layout dashboard), λ h. cc)

-- What a section of the layout has to say of a section that was loaded.
pub record Keeps (section : DashboardSectionDto) (sent : UpdateDashboardSectionDto) : Type 0 where
  pub same_title : sent.title ≡ section.title
  pub same_type : sent.type ≡ section.type
  pub own_links :
      section.type ≡ links → sent.bookmark_ids ≡ some (map (λ b. b.id) section.bookmarks)
  pub no_links : section.type ≢ links → sent.bookmark_ids ≡ none

-- The section in which the link is pinned, and the ids that it holds by then.
pub record Pins (id : String) (section : DashboardSectionDto) (sent : UpdateDashboardSectionDto)
    : Type 0 where
  pub same_title : sent.title ≡ section.title
  pub still_links : sent.type ≡ links
  pub pinned :
      let ids : List String = map (λ b. b.id) section.bookmarks in
      sent.bookmark_ids ≡ some (if includes ids id then ids else ids ++ id ∷ [])

bookmark_ids-eq-map : (bs : List BookmarkDto) → bookmark_ids bs ≡ map (λ b. b.id) bs
bookmark_ids-eq-map [] = refl
bookmark_ids-eq-map (b ∷ bs) = ap (λ rest. b.id ∷ rest) (bookmark_ids-eq-map bs)

is_links_iff :
    (t : DashboardSectionTypeEnum)
    → (is_links t ≡ true → t ≡ links) × (t ≡ links → is_links t ≡ true)
is_links_iff t = ground arith

layout_of-Keeps : (section : DashboardSectionDto) → Keeps section (layout_of section)
layout_of-Keeps section = record {
  same_title = refl;
  same_type = refl;
  own_links =
      λ e. rw ((is_links_iff section.type).1 e) (ap some (bookmark_ids-eq-map section.bookmarks));
  no_links = λ ne. elim (Bool-cases (is_links section.type)) [
    | inl is ↦ absurd (ne ((is_links_iff section.type).0 is))
    | inr other ↦ rw other refl
  ];
}

bookmark_ids-add_bookmark :
    (id : String) (sent : UpdateDashboardSectionDto) (ids : List String)
    → sent.bookmark_ids ≡ some ids
    → (add_bookmark id sent).bookmark_ids ≡ some (if includes ids id then ids else ids ++ id ∷ [])
bookmark_ids-add_bookmark id sent ids e = elim (Bool-cases (includes ids id)) [
  | inl old ↦ rw (e, old) (ground arith)
  | inr new ↦ rw (e, new) (ground arith)
]

add_bookmark-info :
    (id : String) (sent : UpdateDashboardSectionDto)
    → ((add_bookmark id sent).title ≡ sent.title) × ((add_bookmark id sent).type ≡ sent.type)
add_bookmark-info id sent = elim (Bool-cases (holds sent id)) [
  | inl old ↦ rw old (refl, refl)
  | inr new ↦ rw new (refl, refl)
]

add_bookmark-Pins :
    (id : String) (section : DashboardSectionDto)
    → section.type ≡ links
    → Pins id section (add_bookmark id (layout_of section))
add_bookmark-Pins id section e =
    let (title, type_kept) = add_bookmark-info id (layout_of section) in
    record {
      same_title = title;
      still_links = type_kept ∙ e;
      pinned =
          bookmark_ids-add_bookmark id (layout_of section) (map (λ b. b.id) section.bookmarks)
            ((layout_of-Keeps section).own_links e);
    }

get_elem?-map :
    (sections : List DashboardSectionDto) (i : ℕ) (section : DashboardSectionDto)
    → get_elem? sections i ≡ some section
    → get_elem? (map layout_of sections) i ≡ some (layout_of section)
get_elem?-map [] i section h = cc
get_elem?-map (s ∷ ss) zero section h = ground arith
get_elem?-map (s ∷ ss) (suc i) section h = get_elem?-map ss i section h

length-map_layout :
    (sections : List DashboardSectionDto) → length (map layout_of sections) ≡ length sections
length-map_layout [] = refl
length-map_layout (s ∷ ss) = ap suc (length-map_layout ss)

-- Pinning to a section of links that was loaded sends a layout with as many sections. The section holds the
-- ids that it was loaded with, in order, and the link's after them if it was not among them; every other
-- section has its title, its type and, if it holds links, the ids that it was loaded with.
pub pin_to_dashboard-at :
    (id : String) (i : ℕ) (dashboard : DashboardDto) (section : DashboardSectionDto)
    → get_elem? dashboard.sections i ≡ some section
    → section.type ≡ links
    → (layout : List UpdateDashboardSectionDto) × (pin_to_dashboard id (at i) dashboard
        ≡ some layout)
      × (length layout ≡ length dashboard.sections)
      × ((sent : UpdateDashboardSectionDto) × (get_elem? layout i ≡ some sent)
          × Pins id section sent)
      × ((j : ℕ) (other : DashboardSectionDto)
          → i ≢ j
          → get_elem? dashboard.sections j ≡ some other
          → (sent : UpdateDashboardSectionDto) × (get_elem? layout j ≡ some sent)
            × Keeps other sent)
unfolding pin_to_dashboard to_layout
pin_to_dashboard-at id i dashboard section h l =
    let pinned : UpdateDashboardSectionDto = add_bookmark id (layout_of section) in
    let found = get_elem?-map dashboard.sections i section h in
    (
      set (map layout_of dashboard.sections) i pinned,
      rw (found, (is_links_iff section.type).1 l) refl,
      length-set (map layout_of dashboard.sections) i pinned ∙ length-map_layout dashboard.sections,
      (
        pinned,
        get_elem?-set_self (map layout_of dashboard.sections) i pinned (layout_of section) found,
        add_bookmark-Pins id section l,
      ),
      λ j other ne at_j. (
        layout_of other,
        get_elem?-set_ne (map layout_of dashboard.sections) i j pinned ne
            ∙ get_elem?-map dashboard.sections j other at_j,
        layout_of-Keeps other,
      ),
    )
