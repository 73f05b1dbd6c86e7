-- ===== src/Sdk/Runtime/Query/Pairs.antt =====
-- What `querystring` writes is read back as the pairs of keys and values that the parameters hold.
use package.text.Mathlib.TextLemmas.{nil-append, cons-append, append_assoc}
use ragbag.Common.{
  ℕ, ◌≡◌, refl, subst, String, true, not, Option, none, some, List, [], ◌∷◌, ◌++◌, map, ◌==◌, keep,
  truthy, arith, ap, sym, ◌∙◌, All,
}
use ragbag.Common.Text.{◌<+>◌}
use ragbag.Common.Split.{
  split, lacks, split-append, split_whole, all_codes-append, all_codes_weaken,
}
use ragbag.Sdk.Value.{
  Value, undefined, null, bool, num, text, date, arr, obj, Items, nil, cons, Fields, field, end,
}
use ragbag.Sdk.Codec.{◌>>=◌}
use ragbag.Sdk.Runtime.Uri.{encode_uri_component, decode_uri_component, is_unreserved}
use ragbag.Sdk.Runtime.Uri.RoundTrip.{
  codes, is_inert, decode-encode_uri_component, all_codes-encode_uri_component,
}
use ragbag.Sdk.Runtime.{Platform, shown, join}
use ragbag.Sdk.Runtime.Query.Joining.{
  IsPart, amp, amp_assoc, join-cons, joined-cons, append-IsPart, cons-IsPart,
}
use ragbag.Sdk.Runtime.Query.{
  full_key, assignment, encoded_items, joined, query_parts, querystring_single_key, querystring,
}

abbrev Pairs : Type 0
Pairs = List (String × String)

-- The name of a field of an object: its key, in brackets behind the name of the object if that has one.
abbrev pub nested_key : String → String → String
nested_key String.[] key = key
nested_key (String.◌∷◌ c prefix) key = String.◌∷◌ c prefix <+> "[" <+> key <+> "]"

full_key-nested : (prefix key : String) → full_key prefix key ≡ nested_key prefix key
full_key-nested String.[] key = refl
full_key-nested (String.◌∷◌ c prefix) key = rw (cons-IsPart c prefix) refl

-- The parameters as pairs, none where `querystring` is to throw: for a field, at any depth of objects, that is
-- an invalid date. An array gives its key to each entry.
module _ (platform : Platform) where
  abbrev later_pairs : String → Items → Pairs
  later_pairs key nil = []
  later_pairs key (cons v vs) = (key, shown platform v) ∷ later_pairs key vs

  abbrev item_pairs : String → Items → Pairs
  item_pairs key nil = (key, "") ∷ []
  item_pairs key (cons v vs) = later_pairs key (cons v vs)

  mutual
    pub pairs_of : Fields → String → Option Pairs
    pairs_of end prefix = some []
    pairs_of (field key value rest) prefix = do
      first ← value_pairs (nested_key prefix key) value
      later ← pairs_of rest prefix
      some (first ++ later)

    value_pairs : String → Value → Option Pairs
    value_pairs key (arr vs) = some (item_pairs key vs)
    value_pairs key (date none) = none
    value_pairs key (date (some t)) = some ((key, platform.dates.iso t) ∷ [])
    value_pairs key (obj fs) = pairs_of fs key
    value_pairs key v = some ((key, shown platform v) ∷ [])

-- A server's reading: parts between `&` that are not empty, each cut at `=`, both sides decoded.
abbrev pair_of : List String → Option (List ℕ) × Option (List ℕ)
pair_of (k ∷ v ∷ []) = (decode_uri_component k, decode_uri_component v)
pair_of _ = (none, none)

pub read_query : String → List (Option (List ℕ) × Option (List ℕ))
read_query s =
    map (λ part. pair_of (split b'=' part)) (keep (λ part. truthy (some part)) (split b'&' s))

abbrev assignments : Pairs → List String
assignments [] = []
assignments ((k, v) ∷ ps) = assignment k (encode_uri_component v) ∷ assignments ps

abbrev pub read_as : Pairs → List (Option (List ℕ) × Option (List ℕ))
read_as [] = []
read_as ((k, v) ∷ ps) = (some (codes k), some (codes v)) ∷ read_as ps

inert_lacks : (c : ℕ) → is_inert c ≡ true → not (c == b'&') ≡ true
unfolding is_unreserved
inert_lacks c h = ground arith

inert_lacks_eq : (c : ℕ) → is_inert c ≡ true → not (c == b'=') ≡ true
unfolding is_unreserved
inert_lacks_eq c h = ground arith

lacks-encode :
    (s : String)
    → (lacks b'&' (encode_uri_component s) ≡ true) × (lacks b'=' (encode_uri_component s) ≡ true)
lacks-encode s = (
  all_codes_weaken is_inert (λ c. not (c == b'&')) (encode_uri_component s) inert_lacks
      (all_codes-encode_uri_component s),
  all_codes_weaken is_inert (λ c. not (c == b'=')) (encode_uri_component s) inert_lacks_eq
      (all_codes-encode_uri_component s),
)

lacks-assignment : (k v : String) → lacks b'&' (assignment k (encode_uri_component v)) ≡ true
lacks-assignment k v =
    all_codes-append (λ c. not (c == b'&')) (encode_uri_component k)
      ("=" <+> encode_uri_component v)
    ∙ rw (
      all_codes-append (λ c. not (c == b'&')) "=" (encode_uri_component v),
      (lacks-encode k).0,
      (lacks-encode v).0,
    )

read_assignment :
    (k v : String)
    → pair_of (split b'=' (assignment k (encode_uri_component v)))
      ≡ (some (codes k), some (codes v))
read_assignment k v = rw (
  cons-append "=" "" (encode_uri_component v),
  nil-append,
  split-append b'=' "=" (encode_uri_component k) (encode_uri_component v) refl (lacks-encode k).1,
  split_whole b'=' (encode_uri_component v) (lacks-encode v).1,
  decode-encode_uri_component k,
  decode-encode_uri_component v,
)

append_later-IsPart : (s t : String) → IsPart t → IsPart (s <+> t)
append_later-IsPart String.[] t h = rw (nil-append) h
append_later-IsPart (String.◌∷◌ c s) t h = rw (cons-append c s t) (cons-IsPart c (s <+> t))

assignment-IsPart : (k v : String) → IsPart (assignment k v)
assignment-IsPart k v =
    append_later-IsPart (encode_uri_component k) ("=" <+> v) (append-IsPart "=" v refl)

assignments-append : (ps qs : Pairs) → assignments (ps ++ qs) ≡ assignments ps ++ assignments qs
assignments-append [] qs = refl
assignments-append ((k, v) ∷ ps) qs =
    ap (λ rest. assignment k (encode_uri_component v) ∷ rest) (assignments-append ps qs)

All-assignments : (ps : Pairs) → All IsPart (assignments ps)
All-assignments [] = tt
All-assignments ((k, v) ∷ ps) = (assignment-IsPart k (encode_uri_component v), All-assignments ps)

abbrev written : Pairs → String
written ps = join "&" (assignments ps)

written-append : (ps qs : Pairs) → written (ps ++ qs) ≡ amp (written ps) (written qs)
written-append [] qs = unfold join in refl
written-append ((k, v) ∷ ps) qs =
    let a = assignment k (encode_uri_component v) in
    let whole = assignment-IsPart k (encode_uri_component v) in
    join-cons a (assignments (ps ++ qs)) whole (All-assignments (ps ++ qs))
    ∙ ap (amp a) (written-append ps qs)
    ∙ sym (amp_assoc a (written ps) (written qs))
    ∙ ap (λ s. amp s (written qs)) (sym (join-cons a (assignments ps) whole (All-assignments ps)))

module _ (platform : Platform) where
  items-written :
      (key : String) (v : Value) (vs : Items)
      → assignment key
          (join ("&" <+> encode_uri_component key <+> "=") (encoded_items platform (cons v vs)))
        ≡ written (later_pairs platform key (cons v vs))
  unfolding join
  items-written key v nil = refl
  items-written key v (cons w vs) = rw (← items-written key w vs) (simp append_assoc)

  combined-written :
      (single : Option String) (parts : Option (List String)) (first later : Option Pairs)
      → (parts >>= λ ps. some (joined ps)) ≡ (later >>= λ ps. some (written ps))
      → single ≡ (first >>= λ ps. some (written ps))
      → ((single >>= λ p. parts >>= λ ps. some (p ∷ ps)) >>= λ ps. some (joined ps))
        ≡ ((first >>= λ ps. later >>= λ qs. some (ps ++ qs)) >>= λ ps. some (written ps))
  combined-written single parts none later h e = rw e
  combined-written single none (some f) none h e = rw e
  combined-written single (some ps) (some f) none h e = cc
  combined-written single none (some f) (some l) h e = cc
  combined-written single (some ps) (some f) (some l) h e = rw e (
      ap some (joined-cons (written f) ps)
      ∙ ap (λ o. o >>= λ s. some (amp (written f) s)) h
      ∙ ap some (sym (written-append f l)))

  mutual
    unfolding query_parts pairs_of join

    parts-written :
        (fs : Fields) (prefix : String)
        → (query_parts platform fs prefix >>= λ parts. some (joined parts))
          ≡ (pairs_of platform fs prefix >>= λ ps. some (written ps))
    parts-written end prefix = refl
    parts-written (field key value rest) prefix =
        combined-written (querystring_single_key platform (full_key prefix key) value)
          (query_parts platform rest prefix) (value_pairs platform (nested_key prefix key) value)
          (pairs_of platform rest prefix) (parts-written rest prefix)
          (subst
            (λ k.
              querystring_single_key platform (full_key prefix key) value
              ≡ (value_pairs platform k value >>= λ ps. some (written ps)))
            (full_key-nested prefix key) (single-written (full_key prefix key) value))

    single-written :
        (key : String) (v : Value)
        → querystring_single_key platform key v
          ≡ (value_pairs platform key v >>= λ ps. some (written ps))
    single-written key undefined = refl
    single-written key null = refl
    single-written key (bool b) = refl
    single-written key (num n) = refl
    single-written key (text t) = refl
    single-written key (date none) = refl
    single-written key (date (some t)) = refl
    single-written key (arr nil) = refl
    single-written key (arr (cons v vs)) = ap some (items-written key v vs)
    single-written key (obj fs) = parts-written fs key

read_parts :
    (ps : Pairs)
    → map (λ part. pair_of (split b'=' part)) (keep (λ part. truthy (some part)) (assignments ps))
      ≡ read_as ps
read_parts [] = refl
read_parts ((k, v) ∷ ps) =
    rw (assignment-IsPart k (encode_uri_component v)) (λ i. read_assignment k v i ∷ read_parts ps i)

split-written :
    (p : String × String) (ps : Pairs) → split b'&' (written (p ∷ ps)) ≡ assignments (p ∷ ps)
unfolding join
split-written (k, v) [] =
    split_whole b'&' (assignment k (encode_uri_component v)) (lacks-assignment k v)
split-written (k, v) (q ∷ ps) =
    let a = assignment k (encode_uri_component v) in
    rw (cons-append "&" "" (written (q ∷ ps)), nil-append)
      (split-append b'&' "&" a (written (q ∷ ps)) refl (lacks-assignment k v)
        ∙ ap (λ rest. a ∷ rest) (split-written q ps))

read-written : (ps : Pairs) → read_query (written ps) ≡ read_as ps
unfolding read_query
read-written [] = unfold join split in refl
read-written (p ∷ ps) = rw (split-written p ps) (read_parts (p ∷ ps))

read_pairs :
    (found : Option Pairs)
    → ((found >>= λ ps. some (written ps)) >>= λ q. some (read_query q))
      ≡ (found >>= λ ps. some (read_as ps))
read_pairs none = refl
read_pairs (some ps) = ap some (read-written ps)

-- Whatever the parameters are, what is written for them is read by a server as the pairs that they hold, each key
-- and value character by character, with the keys of nested objects in brackets. Where a field, at any depth
-- of objects, is an invalid date, nothing is written.
pub read_query-querystring :
    (platform : Platform) (params : Fields) (prefix : String)
    → (querystring platform params prefix >>= λ query. some (read_query query))
      ≡ (pairs_of platform params prefix >>= λ ps. some (read_as ps))
unfolding querystring
read_query-querystring platform params prefix =
    rw (parts-written platform params prefix) (read_pairs (pairs_of platform params prefix))
