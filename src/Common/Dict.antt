-- ===== src/Common/Dict.antt =====
-- A string-keyed dictionary as an association list: `Storage`, headers and plain objects.
use Prim.Native.String.{String}
use mathlib.Core.Path.{◌≡◌, refl}
use mathlib.Core.Option.{Option, none, some}
use mathlib.Core.List.{List, [], ◌∷◌}
use native.Mathlib.Omega.{arith}
use text.Mathlib.TextEquality.{eq_iff}
use text.Mathlib.TextPositions.{eq_refl}
use ragbag.Common.Tests.{◌===◌, if◌then◌else◌}

-- `getItem`, `get`: the entry of a key.
unfoldable pub lookup {ℓ} : {A : Type ℓ} → String → List (String × A) → Option A
lookup key [] = none
lookup key ((own, a) ∷ entries) = if own === key then some a else lookup key entries

-- `removeItem`, `delete`
unfoldable pub erase {ℓ} : {A : Type ℓ} → String → List (String × A) → List (String × A)
erase key [] = []
erase key ((own, a) ∷ entries) =
    if own === key then erase key entries else (own, a) ∷ erase key entries

-- `setItem`, `set`: a key that is there keeps its place.
unfoldable pub insert {ℓ} : {A : Type ℓ} → String → A → List (String × A) → List (String × A)
insert key new [] = (key, new) ∷ []
insert key new ((own, a) ∷ entries) =
    if own === key then (own, new) ∷ entries else (own, a) ∷ insert key new entries

module _ {ℓ} {A : Type ℓ} (key : String) where
  pub lookup-erase :
      (other : String) (entries : List (String × A))
      → lookup other (erase key entries) ≡ (if key === other then none else lookup other entries)
  unfolding lookup erase
  lookup-erase other [] = ground arith
  lookup-erase other ((own, a) ∷ entries) =
      ground (arith, lookup-erase other entries, eq_iff own key, eq_iff own other, eq_iff key other)

  pub lookup-insert :
      (other : String) (new : A) (entries : List (String × A))
      → lookup other (insert key new entries)
        ≡ (if key === other then some new else lookup other entries)
  unfolding lookup insert
  lookup-insert other new [] = refl
  lookup-insert other new ((own, a) ∷ entries) =
      ground
        (arith, lookup-insert other new entries, eq_iff own key, eq_iff own other, eq_iff key other)

  pub lookup-erase_self : (entries : List (String × A)) → lookup key (erase key entries) ≡ none
  lookup-erase_self entries = simp (lookup-erase, eq_refl)

  pub lookup-insert_self :
      (new : A) (entries : List (String × A)) → lookup key (insert key new entries) ≡ some new
  lookup-insert_self new entries = simp (lookup-insert, eq_refl)

pub erase_twice {ℓ} :
    {A : Type ℓ} (key : String) (entries : List (String × A))
    → erase key (erase key entries) ≡ erase key entries
unfolding erase
erase_twice key [] = refl
erase_twice key ((own, a) ∷ entries) = ground (arith, erase_twice key entries)
