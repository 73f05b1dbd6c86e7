-- ===== src/Sdk/Apis/Operation/Paths.antt =====
-- The paths of the requests: a template whose holes are filled with encoded parameters.
use Prim.Native.Char.{Char, code}
use text.Mathlib.TextLemmas.{append-nil, nil-append, cons-append, append_assoc}
use ragbag.Common.{
  ℕ, ◌≡◌, refl, sym, ◌∙◌, String, Bool, true, false, ◌&&◌, List, [], ◌∷◌, ap, map, all, ◌==◌, not,
  All, arith,
}
use ragbag.Common.Text.{◌<+>◌, strip_prefix, strip_prefix-append}
use ragbag.Common.Split.{
  split, lacks, split-append, split_whole, all_codes-append, all_codes_weaken,
}
use ragbag.Sdk.Value.{Value, prop}
use ragbag.Sdk.Runtime.{Platform, shown}
use ragbag.Sdk.Runtime.Uri.{encode_uri_component, is_unreserved}
use ragbag.Sdk.Runtime.Uri.RoundTrip.{is_inert, all_codes-encode_uri_component}
use ragbag.Sdk.Apis.Operation.{replace_first, placeholder, fill_path}

pub data Segment : Type 0 where
  literal hole : String → Segment

abbrev pub text_of : Segment → String
text_of (literal s) = s
text_of (hole name) = placeholder name

abbrev pub slashed : List String → String
slashed [] = ""
slashed (s ∷ ss) = String.◌∷◌ "/" (s <+> slashed ss)

abbrev pub holes : List Segment → List String
holes [] = []
holes (literal s ∷ segments) = holes segments
holes (hole name ∷ segments) = name ∷ holes segments

-- Without a brace and a slash.
abbrev pub is_clean : Segment → Bool
is_clean (literal s) = lacks b'{' s && lacks b'/' s
is_clean (hole name) = true

-- What a segment is in the path of a request.
abbrev pub filled : Platform → Value → Segment → String
filled platform params (literal s) = s
filled platform params (hole name) = encode_uri_component (shown platform (prop params name))

replace_first-open :
    (p r post : String)
    → replace_first (String.◌∷◌ "{" p) r (String.◌∷◌ "{" (p <+> post)) ≡ r <+> post
unfolding replace_first
replace_first-open p r post = rw (strip_prefix-append p post) refl

replace_first-other :
    (p r : String) (c : Char) (s : String)
    → (code c == b'{') ≡ false
    → replace_first (String.◌∷◌ "{" p) r (String.◌∷◌ c s)
      ≡ String.◌∷◌ c (replace_first (String.◌∷◌ "{" p) r s)
unfolding replace_first strip_prefix
replace_first-other p r c s h = ground arith

-- What begins with a brace is replaced where the first brace is.
replace_first-found :
    (p r pre post : String)
    → lacks b'{' pre ≡ true
    → replace_first (String.◌∷◌ "{" p) r (pre <+> String.◌∷◌ "{" (p <+> post)) ≡ pre <+> r <+> post
replace_first-found p r String.[] post h = rw (nil-append, nil-append) (replace_first-open p r post)
replace_first-found p r (String.◌∷◌ c pre) post h =
    rw (cons-append c pre (String.◌∷◌ "{" (p <+> post)), cons-append c pre (r <+> post))
      (replace_first-other p r c (pre <+> String.◌∷◌ "{" (p <+> post)) (ground arith)
        ∙ ap (λ t. String.◌∷◌ c t) (replace_first-found p r pre post (ground arith)))

placeholder_open : (name : String) → placeholder name ≡ String.◌∷◌ "{" (name <+> "}")
placeholder_open name =
    cons-append "{" "" (name <+> "}") ∙ ap (λ t. String.◌∷◌ "{" t) (nil-append (name <+> "}"))

lacks-joined :
    (c : ℕ) (pre s : String)
    → (c == b'/') ≡ false
    → lacks c pre ≡ true
    → lacks c s ≡ true
    → lacks c (pre <+> String.◌∷◌ "/" s) ≡ true
lacks-joined c pre s e h k =
    rw (all_codes-append (λ d. not (d == c)) pre (String.◌∷◌ "/" s), h, k) (ground arith)

regroup :
    (pre s rest : String)
    → pre <+> String.◌∷◌ "/" (s <+> rest) ≡ (pre <+> String.◌∷◌ "/" s) <+> rest
regroup pre s rest =
    sym (append_assoc pre (String.◌∷◌ "/" s) rest ∙ ap (λ t. pre <+> t) (cons-append "/" s rest))

reslash : (pre rest : String) → pre <+> String.◌∷◌ "/" rest ≡ (pre <+> "/") <+> rest
reslash pre rest = sym (
    append_assoc pre "/" rest
    ∙ ap (λ t. pre <+> t) (cons-append "/" "" rest ∙ ap (λ t. String.◌∷◌ "/" t) (nil-append rest)))

regroup_hole :
    (pre name rest : String)
    → pre <+> String.◌∷◌ "/" (placeholder name <+> rest)
      ≡ (pre <+> "/") <+> String.◌∷◌ "{" ((name <+> "}") <+> rest)
regroup_hole pre name rest =
    rw (placeholder_open name, cons-append "{" (name <+> "}") rest)
      (reslash pre (String.◌∷◌ "{" ((name <+> "}") <+> rest)))

module _ (platform : Platform) (params : Value) where
  filled_hole :
      (names : List String) (name pre rest : String)
      → lacks b'{' pre ≡ true
      → fill_path platform params
          (name ∷ names)
          (pre <+> String.◌∷◌ "/" (placeholder name <+> rest))
        ≡ fill_path platform params names
            ((pre <+> String.◌∷◌ "/" (filled platform params (hole name))) <+> rest)
  unfolding fill_path
  filled_hole names name pre rest h =
      ap (λ t. fill_path platform params names t)
        (rw (regroup_hole pre name rest, placeholder_open name)
          (replace_first-found (name <+> "}") (filled platform params (hole name)) (pre <+> "/")
              rest (lacks-joined _ pre "" refl h refl)
            ∙ sym (reslash pre (filled platform params (hole name) <+> rest))
            ∙ regroup pre (filled platform params (hole name)) rest))

  lacks-encoded : (v : Value) → lacks b'{' (encode_uri_component (shown platform v)) ≡ true
  lacks-encoded v =
      all_codes_weaken is_inert (λ c. not (c == b'{')) (encode_uri_component (shown platform v))
        (λ c h. unfold is_unreserved in ground arith)
        (all_codes-encode_uri_component (shown platform v))

  pub fill_path-slashed :
      (segments : List Segment) (pre : String)
      → lacks b'{' pre ≡ true
      → all is_clean segments ≡ true
      → fill_path platform params (holes segments) (pre <+> slashed (map text_of segments))
        ≡ pre <+> slashed (map (filled platform params) segments)
  fill_path-slashed [] pre h clean = unfold fill_path in refl
  fill_path-slashed (literal s ∷ segments) pre h clean =
      rw
        (
          regroup pre s (slashed (map text_of segments)),
          regroup pre s (slashed (map (filled platform params) segments)),
        )
        (fill_path-slashed segments (pre <+> String.◌∷◌ "/" s)
          (lacks-joined _ pre s refl h (ground arith)) (ground arith))
  fill_path-slashed (hole name ∷ segments) pre h clean =
      filled_hole (holes segments) name pre (slashed (map text_of segments)) h
      ∙ rw
          (regroup pre (filled platform params (hole name))
            (slashed (map (filled platform params) segments)))
          (fill_path-slashed segments (pre <+> String.◌∷◌ "/" (filled platform params (hole name)))
            (lacks-joined _ pre (filled platform params (hole name)) refl h
              (lacks-encoded (prop params name)))
            clean)

-- Cutting at the slashes gives the segments back.
pub split-slashed :
    (s : String) (ss : List String)
    → lacks b'/' s ≡ true
    → All (λ t. lacks b'/' t ≡ true) ss
    → split b'/' (s <+> slashed ss) ≡ s ∷ ss
split-slashed s [] h all = rw append-nil (split_whole b'/' s h)
split-slashed s (t ∷ ss) h (first, others) =
    split-append b'/' "/" s (t <+> slashed ss) refl h
    ∙ ap (λ rest. s ∷ rest) (split-slashed t ss first others)

pub lacks-filled :
    (platform : Platform) (params : Value) (segment : Segment)
    → is_clean segment ≡ true
    → lacks b'/' (filled platform params segment) ≡ true
lacks-filled platform params (literal s) clean = ground arith
lacks-filled platform params (hole name) clean =
    all_codes_weaken is_inert (λ c. not (c == b'/')) (filled platform params (hole name))
      (λ c h. unfold is_unreserved in ground arith)
      (all_codes-encode_uri_component (shown platform (prop params name)))
