-- ===== src/Utils/Links.antt =====
-- ui/v1/src/lib/utils/links.ts: sorting and filtering of links.
use ragbag.Common.{
  ℕ, ◌≤◌, ◌⊎◌, ◌≢◌, All, ◌≡◌, inl, inr, refl, String, Bool, true, false, ◌&&◌, ◌||◌, Option, none,
  some, List, [], ◌∷◌, ◌++◌, map, if◌then◌else◌, truthy, nullish_or, includes, any, all, keep,
  arith, Bool-cases, ap, sym,
}
use ragbag.Common.Text.{strip_prefix, has_substring}
use mathlib.Core.List.{Perm}
use ragbag.Stores.Preferences.{LinkSort, newest, oldest, name, domain}
use ragbag.Utils.Sort.{
  Sign, less, same, more, not_more, or_then, minus, is_same, sort, IsOrder, IsSorted, sort-Perm,
  sort-IsSorted, keep-sort, or_then-IsOrder, key-IsOrder, minus-IsOrder, flipped-IsOrder,
}
use ragbag.Utils.Urls.{Browser, get_domain}

pub record SortableLink : Type 0 where
  pub url : String
  pub title : Option String
  pub description : Option String
  pub tags : Option (List String)
  pub created_at : Option ℕ

module _ (browser : Browser) where
  -- `title || url`
  abbrev pub name_of : SortableLink → String
  name_of link = if truthy link.title then nullish_or link.title link.url else link.url

  abbrev pub time_of : SortableLink → ℕ
  time_of link = nullish_or link.created_at 0

  abbrev pub domain_of : SortableLink → String
  domain_of link =
      nullish_or (strip_prefix "www." (get_domain browser link.url)) (get_domain browser link.url)

  abbrev pub compare_by : LinkSort → SortableLink → SortableLink → Sign
  compare_by newest a b = minus (time_of b) (time_of a)
  compare_by oldest a b = minus (time_of a) (time_of b)
  compare_by name a b =
      or_then (browser.collate (name_of a) (name_of b)) (minus (time_of b) (time_of a))
  compare_by domain a b =
      or_then (browser.collate (domain_of a) (domain_of b))
        (browser.collate (name_of a) (name_of b))

  compare_by-IsOrder : (by : LinkSort) → IsOrder (compare_by by)
  compare_by-IsOrder newest =
      key-IsOrder time_of (λ s t. minus t s) (flipped-IsOrder minus minus-IsOrder)
  compare_by-IsOrder oldest = key-IsOrder time_of minus minus-IsOrder
  compare_by-IsOrder name =
      or_then-IsOrder (λ a b. browser.collate (name_of a) (name_of b))
        (λ a b. minus (time_of b) (time_of a))
        (key-IsOrder name_of browser.collate browser.collate-IsOrder)
        (key-IsOrder time_of (λ s t. minus t s) (flipped-IsOrder minus minus-IsOrder))
  compare_by-IsOrder domain =
      or_then-IsOrder (λ a b. browser.collate (domain_of a) (domain_of b))
        (λ a b. browser.collate (name_of a) (name_of b))
        (key-IsOrder domain_of browser.collate browser.collate-IsOrder)
        (key-IsOrder name_of browser.collate browser.collate-IsOrder)

  -- `value?.getTime() ?? 0`, for what the orders mean.
  abbrev pub when : Option ℕ → ℕ
  when none = 0
  when (some t) = t

  -- What each choice promises of two links, of which the first stands before the second.
  abbrev pub InOrder : LinkSort → SortableLink → SortableLink → Type 0
  InOrder newest a b = when b.created_at ≤ when a.created_at
  InOrder oldest a b = when a.created_at ≤ when b.created_at
  InOrder name a b =
      (browser.collate (name_of a) (name_of b) ≡ less)
      ⊎ ((browser.collate (name_of a) (name_of b) ≡ same) × (when b.created_at ≤ when a.created_at))
  InOrder domain a b =
      (browser.collate (domain_of a) (domain_of b) ≡ less)
      ⊎ ((browser.collate (domain_of a) (domain_of b) ≡ same)
          × (browser.collate (name_of a) (name_of b) ≢ more))

  abbrev pub AllInOrder : {T : Type 0} → (T → T → Type 0) → List T → Type 0
  AllInOrder R [] = Unit {0}
  AllInOrder R (x ∷ xs) = All (R x) xs × AllInOrder R xs

  time-when : (a : SortableLink) → time_of a ≡ when a.created_at
  time-when a = ground arith

  minus-not_more : (m n : ℕ) → not_more (minus m n) ≡ true → m ≤ n
  minus-not_more m n h = ground arith

  or_then-not_more :
      (s t : Sign) → not_more (or_then s t) ≡ true → (s ≡ less) ⊎ ((s ≡ same) × (not_more t ≡ true))
  or_then-not_more less t h = inl refl
  or_then-not_more same t h = inr (refl, h)
  or_then-not_more more t h = cc

  not_more-more : (s : Sign) → not_more s ≡ true → s ≢ more
  not_more-more s h e = ground arith

  compare_by-InOrder :
      (by : LinkSort) (a b : SortableLink) → not_more (compare_by by a b) ≡ true → InOrder by a b
  compare_by-InOrder newest a b h =
      rw (← time-when a, ← time-when b) (minus-not_more (time_of b) (time_of a) h)
  compare_by-InOrder oldest a b h =
      rw (← time-when a, ← time-when b) (minus-not_more (time_of a) (time_of b) h)
  compare_by-InOrder name a b h = elim (or_then-not_more _ (minus (time_of b) (time_of a)) h) [
    | inl before ↦ inl before
    | inr (tie, later) ↦
        inr (tie, rw (← time-when a, ← time-when b) (minus-not_more (time_of b) (time_of a) later))
  ]
  compare_by-InOrder domain a b h =
      elim (or_then-not_more _ (browser.collate (name_of a) (name_of b)) h) [
        | inl before ↦ inl before
        | inr (tie, later) ↦ inr (tie, not_more-more _ later)
      ]

  module _ {T : Type 0} (link : T → SortableLink) (by : LinkSort) where
    All-InOrder :
        (x : T) (xs : List T)
        → All (λ y. not_more (compare_by by (link x) (link y)) ≡ true) xs
        → All (λ y. InOrder by (link x) (link y)) xs
    All-InOrder x [] h = tt
    All-InOrder x (y ∷ ys) (h, hs) =
        (compare_by-InOrder by (link x) (link y) h, All-InOrder x ys hs)

    sorted-AllInOrder :
        (xs : List T)
        → IsSorted (λ a b. compare_by by (link a) (link b)) xs
        → AllInOrder (λ a b. InOrder by (link a) (link b)) xs
    sorted-AllInOrder [] h = tt
    sorted-AllInOrder (x ∷ xs) (h, hs) = (All-InOrder x xs h, sorted-AllInOrder xs hs)

  module _ {T : Type 0} (link : T → SortableLink) where
    unfoldable pub sort_links : List T → LinkSort → List T
    unfolding sort
    sort_links links by = sort (λ a b. compare_by by (link a) (link b)) links

    -- The links of every choice are a permutation of the links given, and any two of them stand in the order
    -- chosen: the newest or the oldest first; by name, and for equal names the newest first; by domain,
    -- and for equal domains by name. Links that compare as the same keep their order.
    pub sort_links_stable :
        (links : List T) (by : LinkSort)
        → Perm links (sort_links links by)
          × AllInOrder (λ a b. InOrder by (link a) (link b)) (sort_links links by)
          × ((z : T)
              → keep (λ y. is_same (compare_by by (link z) (link y))) (sort_links links by)
                ≡ keep (λ y. is_same (compare_by by (link z) (link y))) links)
    unfolding sort_links
    sort_links_stable links by =
        let compare : T → T → Sign = λ a b. compare_by by (link a) (link b) in
        let order = key-IsOrder link (compare_by by) (compare_by-IsOrder by) in
        (
          sort-Perm compare links,
          sorted-AllInOrder link by (sort compare links) (sort-IsSorted compare order links),
          λ z. keep-sort compare order z links,
        )

    -- `value?.toLowerCase().includes(q)`
    abbrev pub mentions : String → Option String → Bool
    mentions q none = false
    mentions q (some value) = has_substring (browser.to_lower_case value) q

    abbrev pub matches : String → T → Bool
    matches q t =
        mentions q (link t).title
        || mentions q (some (link t).url)
        || mentions q (link t).description
        || any (λ tag. mentions q (some tag)) (nullish_or (link t).tags [])

    unfoldable pub filter_links : List T → String → List T
    filter_links links query =
        let q : String = browser.to_lower_case (browser.trim query) in
        if truthy (some q) then keep (matches q) links else links

    abbrev pub lowered : List String → List String
    lowered tags = map browser.to_lower_case tags

    abbrev pub has_tags : List String → T → Bool
    has_tags wanted t = all (includes (lowered (nullish_or (link t).tags []))) wanted

    unfoldable pub filter_by_tags : List T → List String → List T
    filter_by_tags links [] = links
    filter_by_tags links (tag ∷ tags) = keep (has_tags (lowered (tag ∷ tags))) links

    keep_all : (p : T → Bool) (links : List T) → ((t : T) → p t ≡ true) → keep p links ≡ links
    keep_all p [] h = refl
    keep_all p (t ∷ ts) h = rw (h t) (ap (λ rest. t ∷ rest) (keep_all p ts h))

    filter_by_tags-eq-keep :
        (links : List T) (tags : List String)
        → filter_by_tags links tags ≡ keep (has_tags (lowered tags)) links
    unfolding filter_by_tags
    filter_by_tags-eq-keep links [] = sym (keep_all (has_tags []) links (λ t. refl))
    filter_by_tags-eq-keep links (tag ∷ tags) = refl

    has_tags-append :
        (t : T) (us vs : List String)
        → has_tags (lowered (us ++ vs)) t ≡ (has_tags (lowered us) t && has_tags (lowered vs) t)
    has_tags-append t [] vs = refl
    has_tags-append t (u ∷ us) vs = ground (arith, has_tags-append t us vs)

    keep-keep :
        (us vs : List String) (links : List T)
        → keep (has_tags (lowered (us ++ vs))) links
          ≡ keep (has_tags (lowered us)) (keep (has_tags (lowered vs)) links)
    keep-keep us vs [] = refl
    keep-keep us vs (t ∷ ts) = elim (Bool-cases (has_tags (lowered vs) t)) [
      | inl yes_vs ↦ rw (has_tags-append t us vs, yes_vs) (ground (arith, keep-keep us vs ts))
      | inr no_vs ↦ rw (has_tags-append t us vs, no_vs) (ground (arith, keep-keep us vs ts))
    ]

    -- Filtering by more tags is filtering by some and then by the others.
    filter_by_tags-append :
        (links : List T) (us vs : List String)
        → filter_by_tags links (us ++ vs) ≡ filter_by_tags (filter_by_tags links vs) us
    filter_by_tags-append links us vs =
        rw
          (
            filter_by_tags-eq-keep links (us ++ vs),
            filter_by_tags-eq-keep links vs,
            filter_by_tags-eq-keep (keep (has_tags (lowered vs)) links) us,
          )
          (keep-keep us vs links)
