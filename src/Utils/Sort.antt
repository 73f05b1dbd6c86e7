-- ===== src/Utils/Sort.antt =====
-- `Array.prototype.sort` with a comparator: stable, as the language defines it.
--
-- The number that a comparator returns only counts by its sign.
use ragbag.Common.{
  ◌≡◌, refl, Bool, true, false, List, [], ◌∷◌, if◌then◌else◌, keep, All, arith, Bool-cases, inl,
  inr, ℕ, ltb, ◌∙◌, subst, sym,
}
use mathlib.Core.List.{Perm}
use mathlib.Core.List.Perm

pub data Sign : Type 0 where
  less same more : Sign

abbrev pub flip : Sign → Sign
flip less = more
flip same = same
flip more = less

-- `s || t`
abbrev pub or_then : Sign → Sign → Sign
or_then less t = less
or_then same t = t
or_then more t = more

abbrev pub not_more : Sign → Bool
not_more more = false
not_more _ = true

abbrev pub is_same : Sign → Bool
is_same same = true
is_same _ = false

-- The sign of `a - b`.
abbrev pub minus : ℕ → ℕ → Sign
minus a b = if ltb a b then less else if ltb b a then more else same

sign_total : (s : Sign) → not_more s ≡ false → not_more (flip s) ≡ true
sign_total less h = cc
sign_total same h = refl
sign_total more h = refl

same-not_more : (s : Sign) → is_same s ≡ true → (not_more s ≡ true) × (not_more (flip s) ≡ true)
same-not_more less h = cc
same-not_more same h = (refl, refl)
same-not_more more h = cc

module _ {T : Type 0} (compare : T → T → Sign) where
  abbrev pub insert_sorted : T → List T → List T
  insert_sorted x [] = x ∷ []
  insert_sorted x (y ∷ ys) =
      let rest = insert_sorted x ys in if not_more (compare x y) then x ∷ y ∷ ys else y ∷ rest

  unfoldable pub sort : List T → List T
  sort [] = []
  sort (x ∷ xs) = insert_sorted x (sort xs)

  -- What a comparator has to satisfy: a total preorder.
  pub record IsOrder : Type 0 where
    pub flips : (a b : T) → compare b a ≡ flip (compare a b)
    pub transitive :
        (a b c : T)
        → not_more (compare a b) ≡ true
        → not_more (compare b c) ≡ true
        → not_more (compare a c) ≡ true

  -- No entry is more than a later one.
  abbrev pub IsSorted : List T → Type 0
  IsSorted [] = Unit {0}
  IsSorted (x ∷ xs) = All (λ y. not_more (compare x y) ≡ true) xs × IsSorted xs

  insert_sorted-Perm : (x : T) (ys : List T) → Perm (x ∷ ys) (insert_sorted x ys)
  insert_sorted-Perm x [] = Perm.refl (x ∷ [])
  insert_sorted-Perm x (y ∷ ys) = elim (Bool-cases (not_more (compare x y))) [
    | inl here ↦ rw here (Perm.refl (x ∷ y ∷ ys))
    | inr later ↦ rw later (Perm.trans (Perm.swap y x ys) (Perm.cons y (insert_sorted-Perm x ys)))
  ]

  pub sort-Perm : (xs : List T) → Perm xs (sort xs)
  unfolding sort
  sort-Perm [] = Perm.nil
  sort-Perm (x ∷ xs) = Perm.trans (Perm.cons x (sort-Perm xs)) (insert_sorted-Perm x (sort xs))

  module _ (order : IsOrder) where
    not_more-flip : (a b : T) → not_more (compare a b) ≡ false → not_more (compare b a) ≡ true
    not_more-flip a b h = rw (order.flips a b) (sign_total (compare a b) h)

    All-after :
        (x y : T) (ys : List T)
        → not_more (compare x y) ≡ true
        → All (λ z. not_more (compare y z) ≡ true) ys
        → All (λ z. not_more (compare x z) ≡ true) ys
    All-after x y [] h a = tt
    All-after x y (z ∷ zs) h (a, rest) = (order.transitive x y z h a, All-after x y zs h rest)

    All-insert_sorted :
        (w x : T) (ys : List T)
        → not_more (compare w x) ≡ true
        → All (λ z. not_more (compare w z) ≡ true) ys
        → All (λ z. not_more (compare w z) ≡ true) (insert_sorted x ys)
    All-insert_sorted w x [] h a = (h, tt)
    All-insert_sorted w x (y ∷ ys) h (a, rest) = elim (Bool-cases (not_more (compare x y))) [
      | inl here ↦ rw here (h, (a, rest))
      | inr later ↦ rw later (a, All-insert_sorted w x ys h rest)
    ]

    insert_sorted-IsSorted : (x : T) (ys : List T) → IsSorted ys → IsSorted (insert_sorted x ys)
    insert_sorted-IsSorted x [] s = (tt, tt)
    insert_sorted-IsSorted x (y ∷ ys) (a, s) = elim (Bool-cases (not_more (compare x y))) [
      | inl here ↦ rw here ((here, All-after x y ys here a), (a, s))
      | inr later ↦
          rw later
            (All-insert_sorted y x ys (not_more-flip x y later) a, insert_sorted-IsSorted x ys s)
    ]

    pub sort-IsSorted : (xs : List T) → IsSorted (sort xs)
    unfolding sort
    sort-IsSorted [] = tt
    sort-IsSorted (x ∷ xs) = insert_sorted-IsSorted x (sort xs) (sort-IsSorted xs)

    same_not_more :
        (x y z : T)
        → is_same (compare z x) ≡ true
        → is_same (compare z y) ≡ true
        → not_more (compare x y) ≡ true
    same_not_more x y z h k =
        order.transitive x z y (rw (order.flips z x) (same-not_more (compare z x) h).1)
          (same-not_more (compare z y) k).0

    keep-insert_sorted :
        (x z : T) (ys : List T)
        → keep (λ y. is_same (compare z y)) (insert_sorted x ys)
          ≡ keep (λ y. is_same (compare z y)) (x ∷ ys)
    keep-insert_sorted x z [] = refl
    keep-insert_sorted x z (y ∷ ys) = ground (arith, keep-insert_sorted x z ys, same_not_more x y z)

    -- Entries that compare as the same keep their order.
    pub keep-sort :
        (z : T) (xs : List T)
        → keep (λ y. is_same (compare z y)) (sort xs) ≡ keep (λ y. is_same (compare z y)) xs
    unfolding sort
    keep-sort z [] = refl
    keep-sort z (x ∷ xs) = keep-insert_sorted x z (sort xs) ∙ ground (arith, keep-sort z xs)

lexicographic_step :
    (f1 f2 f3 g1 g2 g3 : Sign)
    → (not_more f1 ≡ true → not_more f2 ≡ true → not_more f3 ≡ true)
    → (not_more (flip f3) ≡ true → not_more f1 ≡ true → not_more (flip f2) ≡ true)
    → (not_more f2 ≡ true → not_more (flip f3) ≡ true → not_more (flip f1) ≡ true)
    → (not_more g1 ≡ true → not_more g2 ≡ true → not_more g3 ≡ true)
    → not_more (or_then f1 g1) ≡ true
    → not_more (or_then f2 g2) ≡ true
    → not_more (or_then f3 g3) ≡ true
lexicographic_step f1 f2 f3 g1 g2 g3 a b c d h k = ground arith

flip-or_then : (s t : Sign) → or_then (flip s) (flip t) ≡ flip (or_then s t)
flip-or_then less t = refl
flip-or_then same t = refl
flip-or_then more t = refl

-- `f(a, b) || g(a, b)`, the order by one comparator and among its ties by another.
pub or_then-IsOrder :
    {T : Type 0} (f g : T → T → Sign)
    → IsOrder f
    → IsOrder g
    → IsOrder (λ a b. or_then (f a b) (g a b))
or_then-IsOrder f g p q = record {
  flips = λ a b. rw (p.flips a b, q.flips a b) (flip-or_then (f a b) (g a b));
  transitive = λ a b c h k.
      lexicographic_step (f a b) (f b c) (f a c) (g a b) (g b c) (g a c) (p.transitive a b c)
        (λ u v.
          subst (λ s. not_more s ≡ true) (p.flips b c)
            (p.transitive c a b (subst (λ s. not_more s ≡ true) (sym (p.flips a c)) u) v))
        (λ u v.
          subst (λ s. not_more s ≡ true) (p.flips a b)
            (p.transitive b c a u (subst (λ s. not_more s ≡ true) (sym (p.flips a c)) v)))
        (q.transitive a b c) h k;
}

-- The order by a key.
pub key-IsOrder :
    {T Key : Type 0} (key : T → Key) (f : Key → Key → Sign)
    → IsOrder f
    → IsOrder (λ a b. f (key a) (key b))
key-IsOrder key f p = record {
  flips = λ a b. p.flips (key a) (key b);
  transitive = λ a b c h k. p.transitive (key a) (key b) (key c) h k;
}

pub minus-IsOrder : IsOrder minus
minus-IsOrder = record { flips = λ a b. ground arith; transitive = λ a b c h k. ground arith }

pub flipped-IsOrder : {T : Type 0} (f : T → T → Sign) → IsOrder f → IsOrder (λ a b. f b a)
flipped-IsOrder f p = record {
  flips = λ a b. p.flips b a;
  transitive = λ a b c h k. p.transitive c b a k h;
}
