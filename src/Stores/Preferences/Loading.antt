-- ===== src/Stores/Preferences/Loading.antt =====
-- preferences.svelte.ts: settings are usable whatever was stored, and what is saved is what is loaded.
use ragbag.Common.{
  ℕ, ◌≡◌, ◌≤◌, ◌↔◌, refl, String, Bool, true, false, none, some, List, [], ◌∷◌, ◌++◌, if◌then◌else◌,
  includes, IsDistinct, arith, eq_iff, eq_refl, Bool-cases, inl, inr, append-nil, ap, subst, ◌∙◌,
  ◌≢◌,
}
use ragbag.Sdk.Value.{Value, undefined, null, bool, num, text, date, arr, obj, prop, is_nullish}
use ragbag.Stores.Preferences.{
  LinkView, cards, compact, list, LinkSort, newest, oldest, name, domain, Stored, missing,
  malformed, json, Preferences, Store, width_min, width_max, defaults, view_of, sort_of, view_text,
  sort_text, clamp_sidebar_width, width_of, texts_in, texts_of, distinct_after, distinct, parsed,
  loaded, load_preferences, texts_value, saved_value, store_at, save,
}

-- The width is in range, and no collection is listed as expanded twice.
pub record IsUsable (p : Preferences) : Type 0 where
  pub wide_enough : width_min ≤ p.sidebar_width
  pub narrow_enough : p.sidebar_width ≤ width_max
  pub expanded_once : IsDistinct p.expanded

clamp_bounds : (n : ℕ) → (width_min ≤ clamp_sidebar_width n) × (clamp_sidebar_width n ≤ width_max)
unfolding clamp_sidebar_width
clamp_bounds n = omega arith

width_of_bounds : (v : Value) → (width_min ≤ width_of v) × (width_of v ≤ width_max)
width_of_bounds (num n) = clamp_bounds n
width_of_bounds undefined = omega arith
width_of_bounds _ = omega arith

-- A text that was seen is not in the rest.
seen_absent :
    (seen xs : List String) (a : String)
    → includes seen a ≡ true
    → includes (distinct_after seen xs) a ≡ false
seen_absent seen [] a h = refl
seen_absent seen (x ∷ xs) a h = elim (Bool-cases (includes seen x)) [
  | inl old ↦ rw old (seen_absent seen xs a h)
  | inr new ↦ rw new (ground (arith, eq_iff x a, seen_absent (x ∷ seen) xs a (ground arith)))
]

distinct_after-IsDistinct : (seen xs : List String) → IsDistinct (distinct_after seen xs)
distinct_after-IsDistinct seen [] = tt
distinct_after-IsDistinct seen (x ∷ xs) = elim (Bool-cases (includes seen x)) [
  | inl old ↦ rw old (distinct_after-IsDistinct seen xs)
  | inr new ↦ rw new (
    seen_absent (x ∷ seen) xs x (ground (arith, eq_refl x)),
    distinct_after-IsDistinct (x ∷ seen) xs,
  )
]

distinct_after-id :
    (seen xs : List String)
    → ((a : String) → includes seen a ≡ true → includes xs a ≡ false)
    → IsDistinct xs
    → distinct_after seen xs ≡ xs
distinct_after-id seen [] h d = refl
distinct_after-id seen (x ∷ xs) h (d, ds) = elim (Bool-cases (includes seen x)) [
  | inl old ↦ absurd (ground (arith, h x old, eq_refl x))
  | inr new ↦ rw new (
      ap (λ rest. x ∷ rest)
        (distinct_after-id (x ∷ seen) xs (λ a k. ground (arith, eq_iff x a, h a)) ds))
]

view_of-text : (v : LinkView) → view_of (text (view_text v)) ≡ v
view_of-text cards = refl
view_of-text compact = refl
view_of-text list = refl

sort_of-text : (v : LinkSort) → sort_of (text (sort_text v)) ≡ v
sort_of-text newest = refl
sort_of-text oldest = refl
sort_of-text name = refl
sort_of-text domain = refl

texts_in-value : (ss : List String) → texts_in (texts_value ss) ≡ ss
texts_in-value [] = refl
texts_in-value (s ∷ ss) = ap (λ rest. s ∷ rest) (texts_in-value ss)

clamp-id : (n : ℕ) → width_min ≤ n → n ≤ width_max → clamp_sidebar_width n ≡ n
unfolding clamp_sidebar_width
clamp-id n a b = omega arith

loaded-IsUsable : (before : List String) (v : Value) → IsUsable (loaded before v)
unfolding loaded
loaded-IsUsable before v = record {
  wide_enough = (width_of_bounds (prop v "sidebarWidth")).0;
  narrow_enough = (width_of_bounds (prop v "sidebarWidth")).1;
  expanded_once = distinct_after-IsDistinct [] (texts_of (prop v "expanded") ++ before);
}

-- Usable preferences that were saved are loaded unchanged, if nothing was expanded while they were loading.
pub loaded-saved_value : (p : Preferences) → IsUsable p → loaded [] (saved_value p) ≡ p
unfolding loaded
loaded-saved_value p u = λ i. record {
  link_view = view_of-text p.link_view i;
  link_sort = sort_of-text p.link_sort i;
  sidebar_width = clamp-id p.sidebar_width u.wide_enough u.narrow_enough i;
  expanded =
      (ap distinct (append-nil (texts_in (texts_value p.expanded)) ∙ texts_in-value p.expanded)
          ∙ distinct_after-id [] p.expanded (λ a h. absurd (ground arith)) u.expanded_once)
        i;
  open_folders = texts_in-value p.open_folders i;
}

checked-IsUsable :
    (throws : Bool) (s t : Store)
    → IsUsable s.preferences
    → (if throws then none else some s) ≡ some t
    → IsUsable t.preferences
checked-IsUsable true s t u h = cc
checked-IsUsable false s t u h =
    subst (λ found. elim found [ none ↦ Unit | some r ↦ IsUsable r.preferences ]) h u

is_nullish-parsed :
    (available : Bool) (item : Stored)
    → item ≢ json undefined
    → (is_nullish (parsed available item) ≡ true) ↔ ((available ≡ true) × (item ≡ json null))
is_nullish-parsed false item h = (λ e. cc, λ e. cc)
is_nullish-parsed true missing h = (λ e. cc, λ e. cc)
is_nullish-parsed true malformed h = (λ e. cc, λ e. cc)
is_nullish-parsed true (json undefined) h = absurd (h refl)
is_nullish-parsed true (json null) h = (λ e. (refl, refl), λ e. refl)
is_nullish-parsed true (json (bool b)) h = (λ e. cc, λ e. cc)
is_nullish-parsed true (json (num n)) h = (λ e. cc, λ e. cc)
is_nullish-parsed true (json (text s)) h = (λ e. cc, λ e. cc)
is_nullish-parsed true (json (date d)) h = (λ e. cc, λ e. cc)
is_nullish-parsed true (json (arr vs)) h = (λ e. cc, λ e. cc)
is_nullish-parsed true (json (obj fs)) h = (λ e. cc, λ e. cc)

-- Whatever is stored for the user, preferences that are loaded are usable.
pub load_preferences-IsUsable :
    (user : String) (s t : Store) → load_preferences user s ≡ some t → IsUsable t.preferences
unfolding load_preferences
load_preferences-IsUsable user s t h =
    checked-IsUsable (is_nullish (parsed s.storage_available (s.storage user))) _ t
      (loaded-IsUsable s.preferences.expanded (parsed s.storage_available (s.storage user))) h

-- Loading throws exactly if the storage is available and holds the JSON `null` for the user; `undefined` is
-- no JSON.
pub load_preferences-none :
    (user : String) (s : Store)
    → s.storage user ≢ json undefined
    → (load_preferences user s ≡ none)
      ↔ ((s.storage_available ≡ true) × (s.storage user ≡ json null))
unfolding load_preferences
load_preferences-none user s h =
    let both = is_nullish-parsed s.storage_available (s.storage user) h in
    (λ e. both.0 (ground arith), λ e. rw (both.1 e))

-- What a user has set and saved is what the next page load finds, if the settings are usable and the
-- storage is available.
pub load_preferences-save :
    (user : String) (s : Store)
    → s.user ≡ some user
    → s.storage_available ≡ true
    → IsUsable s.preferences
    → load_preferences user (record (save s) { preferences = defaults; user = none })
      ≡ some (save s)
unfolding load_preferences save
load_preferences-save user s h a u =
    rw (h, a, eq_refl user)
      (ap
        (λ p. some (record s {
          preferences = p;
          user = some user;
          storage = store_at user (json (saved_value s.preferences)) s.storage;
          storage_available = true;
        }))
        (loaded-saved_value s.preferences u))
