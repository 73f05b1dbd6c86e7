-- ===== src/Sdk/Runtime/Query/Joining.antt =====
-- Parts of a query joined by `&`, those that are empty left out.
use package.text.Mathlib.TextLemmas.{cons-append, append_assoc, cons-ne-nil}
use ragbag.Common.{
  ◌≡◌, String, true, List, [], ◌∷◌, some, if◌then◌else◌, keep, truthy, arith, sym, ◌∙◌, All,
  Bool-cases, inl, inr, eq_iff, ◌===◌,
}
use ragbag.Common.Text.{◌<+>◌}
use ragbag.Sdk.Runtime.{join}
use ragbag.Sdk.Runtime.Query.{joined}

abbrev pub IsPart : String → Type 0
IsPart s = truthy (some s) ≡ true

pub cons-IsPart : (c : _) (s : String) → IsPart (String.◌∷◌ c s)
cons-IsPart c s = elim (Bool-cases (String.◌∷◌ c s === "")) [
  | inl e ↦ absurd (cons-ne-nil c s ((eq_iff (String.◌∷◌ c s) "").0 e))
  | inr e ↦ ground arith
]

pub append-IsPart : (s t : String) → IsPart s → IsPart (s <+> t)
append-IsPart String.[] t h = cc
append-IsPart (String.◌∷◌ c s) t h = rw (cons-append c s t) (cons-IsPart c (s <+> t))

-- Two queries as one.
abbrev pub amp : String → String → String
amp s t = if truthy (some s) then (if truthy (some t) then s <+> "&" <+> t else s) else t

amp-nil : (s : String) → amp s "" ≡ s
amp-nil s = elim (Bool-cases (truthy (some s))) [
  | inl full ↦ rw full
  | inr empty ↦ rw empty (sym ((eq_iff s "").0 (ground arith)))
]

pub amp_assoc : (s t u : String) → amp (amp s t) u ≡ amp s (amp t u)
amp_assoc s t u = elim (Bool-cases (truthy (some s))) [
  | inr empty ↦ rw empty
  | inl full ↦ elim (Bool-cases (truthy (some t))) [
    | inr none_t ↦ rw (full, none_t, full)
    | inl full_t ↦ elim (Bool-cases (truthy (some u))) [
      | inr none_u ↦ rw (full, full_t, append-IsPart s ("&" <+> t) full, none_u, full_t)
      | inl full_u ↦
          rw
            (
              full,
              full_t,
              append-IsPart s ("&" <+> t) full,
              full_u,
              append-IsPart t ("&" <+> u) full_t,
            )
            (simp append_assoc)
    ]
  ]
]

pub join-cons :
    (x : String) (xs : List String)
    → IsPart x
    → All IsPart xs
    → join "&" (x ∷ xs) ≡ amp x (join "&" xs)
unfolding join
join-cons x [] h hs = sym (amp-nil x)
join-cons x (y ∷ []) h (hy, hs) = rw (h, hy)
join-cons x (y ∷ z ∷ rest) h (hy, hs) = rw (h, append-IsPart y ("&" <+> join "&" (z ∷ rest)) hy)

pub All-keep : (parts : List String) → All IsPart (keep (λ part. truthy (some part)) parts)
All-keep [] = tt
All-keep (p ∷ parts) = elim (Bool-cases (truthy (some p))) [
  | inl full ↦ rw full (full, All-keep parts)
  | inr empty ↦ rw empty (All-keep parts)
]

pub joined-cons : (p : String) (parts : List String) → joined (p ∷ parts) ≡ amp p (joined parts)
joined-cons p parts = elim (Bool-cases (truthy (some p))) [
  | inl full ↦
      rw full
        (join-cons p (keep (λ part. truthy (some part)) parts) full (All-keep parts) ∙ rw full)
  | inr empty ↦ rw empty
]
