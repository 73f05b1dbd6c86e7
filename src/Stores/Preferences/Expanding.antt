-- ===== src/Stores/Preferences/Expanding.antt =====
-- preferences.svelte.ts: expanding and collapsing collections in the sidebar.
pub mod Refinement
use ragbag.Common.{
  ◌≡◌, refl, String, Bool, true, false, not, ◌&&◌, List, [], ◌∷◌, if◌then◌else◌, ◌===◌, includes,
  includes-append, IsDistinct, arith, eq_iff, Bool-cases, inl, inr,
}
use ragbag.Stores.Preferences.{Store, save, set_expanded, is_expanded, toggled, without, same_bool}
use ragbag.Stores.Preferences.Loading.{IsUsable}

includes-without :
    (id other : String) (ids : List String)
    → includes (without id ids) other ≡ (includes ids other && not (id === other))
includes-without id other [] = refl
includes-without id other (x ∷ xs) =
    ground (arith, includes-without id other xs, eq_iff x id, eq_iff x other, eq_iff id other)

includes-toggled :
    (id other : String) (b : Bool) (ids : List String)
    → includes (toggled id b ids) other ≡ (if id === other then b else includes ids other)
includes-toggled id other true ids = rw (includes-append ids (id ∷ []) other) (ground arith)
includes-toggled id other false ids = rw (includes-without id other ids) (ground arith)

without-IsDistinct :
    (id : String) (ids : List String) → IsDistinct ids → IsDistinct (without id ids)
without-IsDistinct id [] d = tt
without-IsDistinct id (x ∷ xs) (d, ds) = elim (Bool-cases (x === id)) [
  | inl same ↦ rw same (without-IsDistinct id xs ds)
  | inr other ↦ rw other (rw (includes-without id x xs) (ground arith), without-IsDistinct id xs ds)
]

toggled-IsDistinct :
    (id : String) (b : Bool) (ids : List String)
    → includes ids id ≡ not b
    → IsDistinct ids
    → IsDistinct (toggled id b ids)
toggled-IsDistinct id true [] h d = (refl, tt)
toggled-IsDistinct id true (x ∷ xs) h (d, ds) = (
  rw (includes-append xs (id ∷ []) x) (ground (arith, eq_iff x id, eq_iff id x)),
  toggled-IsDistinct id true xs (ground arith) ds,
)
toggled-IsDistinct id false ids h d = without-IsDistinct id ids d

preferences-save : (s : Store) → (save s).preferences ≡ s.preferences
unfolding save
preferences-save s = ground arith

same_bool_iff : (a b : Bool) → (same_bool a b ≡ true → b ≡ a) × (same_bool a b ≡ false → b ≡ not a)
same_bool_iff true b = (λ h. h, λ h. h)
same_bool_iff false b = (λ h. ground arith, λ h. ground arith)

-- Expanding or collapsing one collection has its effect, whatever the storage does, changes no other
-- collection, and keeps the settings usable.
pub is_expanded-set_expanded :
    (id other : String) (b : Bool) (s : Store)
    → (is_expanded other (set_expanded id b s) ≡ (if id === other then b else is_expanded other s))
      × (IsUsable s.preferences → IsUsable (set_expanded id b s).preferences)
unfolding set_expanded is_expanded
is_expanded-set_expanded id other b s =
    let ids = s.preferences.expanded in
    elim (Bool-cases (same_bool b (includes ids id))) [
      | inl same ↦
          rw same
            (ground (arith, (same_bool_iff b (includes ids id)).0 same, eq_iff id other), λ u. u)
      | inr change ↦
          rw
            (
              change,
              preferences-save
                  (record s { preferences = record s.preferences { expanded = toggled id b ids } }),
            )
            (
              includes-toggled id other b ids,
              λ u. record {
                wide_enough = u.wide_enough;
                narrow_enough = u.narrow_enough;
                expanded_once =
                    toggled-IsDistinct id b ids ((same_bool_iff b (includes ids id)).1 change)
                      u.expanded_once;
              },
            )
    ]
