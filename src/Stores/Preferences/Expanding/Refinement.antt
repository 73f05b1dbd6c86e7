-- ===== src/Stores/Preferences/Expanding/Refinement.antt =====
-- preferences.svelte.ts: the list of expanded collections as a set.
use ragbag.Common.{true, false, ◌≡◌, refl, ◌∙◌, String, Bool, List, [], ◌∷◌, if◌then◌else◌, ◌===◌}
use ragbag.Stores.Preferences.{Store, set_expanded, is_expanded}
use ragbag.Stores.Preferences.Loading.{IsUsable}
use ragbag.Stores.Preferences.Expanding.{is_expanded-set_expanded}

abbrev pub Change : Type 0
Change = String × Bool

-- The calls `setExpanded(id, expanded)`, one after the other.
unfoldable pub set_all : List Change → Store → Store
unfolding set_expanded
set_all [] s = s
set_all ((id, b) ∷ cs) s = set_all cs (set_expanded id b s)

-- A set of ids as the sidebar sees it: the last change of an id counts.
abbrev pub changed : Change → (String → Bool) → String → Bool
changed (id, b) set other = if id === other then b else set other

abbrev pub changed_all : List Change → (String → Bool) → String → Bool
changed_all [] set other = set other
changed_all (c ∷ cs) set other = changed_all cs (changed c set) other

if_same : (b : Bool) (x y z : Bool) → y ≡ z → (if b then x else y) ≡ (if b then x else z)
if_same true x y z e = refl
if_same false x y z e = e

changed_all-same :
    (cs : List Change) (set other_set : String → Bool)
    → ((id : String) → set id ≡ other_set id)
    → (id : String) → changed_all cs set id ≡ changed_all cs other_set id
changed_all-same [] set other_set same id = same id
changed_all-same ((own, b) ∷ cs) set other_set same id =
    changed_all-same cs (changed (own, b) set) (changed (own, b) other_set)
      (λ k. if_same (own === k) b (set k) (other_set k) (same k)) id

-- After any calls of `setExpanded`, whatever the storage does, the list holds the set that the calls describe:
-- the last call for a collection decides, and those without one are as before. The settings stay usable.
pub set_all-refines :
    (cs : List Change) (s : Store)
    → ((id : String) → is_expanded id (set_all cs s) ≡ changed_all cs (λ k. is_expanded k s) id)
      × (IsUsable s.preferences → IsUsable (set_all cs s).preferences)
unfolding set_all
set_all-refines [] s = (λ id. refl, λ u. u)
set_all-refines ((own, b) ∷ cs) s =
    let (same, usable) = set_all-refines cs (set_expanded own b s) in
    (
      λ id.
          same id
          ∙ changed_all-same cs (λ k. is_expanded k (set_expanded own b s))
              (changed (own, b) (λ k. is_expanded k s))
              (λ k. (is_expanded-set_expanded own k b s).0) id,
      λ u. usable ((is_expanded-set_expanded own own b s).1 u),
    )
