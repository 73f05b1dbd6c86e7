-- ===== src/Sdk/Apis/Templates.antt =====
-- The paths of sdk/apis against their templates, for all operations of the API.
use text.Mathlib.TextLemmas.{nil-append}
use ragbag.Common.{
  ◌≡◌, ◌≢◌, refl, sym, ap, ◌∙◌, String, Bool, true, false, ◌&&◌, Option, none, some, List, [], ◌∷◌,
  inl, inr, Option-cases, map, all, includes, ◌===◌, eq_iff, subst, arith, In, All,
}
use ragbag.Common.Text.{strip_prefix}
use ragbag.Common.Split.{split, lacks}
use ragbag.Sdk.Value.{Value, Dates, is_nullish, prop}
use ragbag.Sdk.Runtime.{Platform}
use ragbag.Sdk.Runtime.Request.{Configuration, Init, RequestOpts, returned, thrown, required_error}
use ragbag.Sdk.Apis.Operation.{Operation, first_missing, fill_path, request_opts, raw, call}
use ragbag.Sdk.Apis.Operation.Paths.{
  Segment, literal, hole, text_of, slashed, holes, is_clean, filled, fill_path-slashed,
  split-slashed, lacks-filled,
}
use ragbag.Sdk.Apis.All.{operations}

abbrev without_last : String → String
without_last String.[] = ""
without_last (String.◌∷◌ c String.[]) = ""
without_last (String.◌∷◌ c (String.◌∷◌ d s)) = String.◌∷◌ c (without_last (String.◌∷◌ d s))

-- A segment of a template: a hole if it begins with a brace.
abbrev segment_of : String → Segment
segment_of s = elim (strip_prefix "{" s) [ none ↦ literal s | some rest ↦ hole (without_last rest) ]

abbrev without_first : List String → List String
without_first [] = []
without_first (s ∷ ss) = ss

unfoldable pub segments_of : String → List Segment
unfolding split strip_prefix
segments_of template = map segment_of (without_first (split b'/' template))

abbrev same_texts : List String → List String → Bool
same_texts [] [] = true
same_texts (s ∷ ss) (t ∷ ts) = s === t && same_texts ss ts
same_texts _ _ = false

-- The template is its segments, each hole is replaced, in order, and what replaces it is required.
unfoldable pub is_well_formed : Operation → Bool
unfolding segments_of
is_well_formed op =
    let segments = segments_of op.template in
    op.template === slashed (map text_of segments)
    && all is_clean segments
    && same_texts (holes segments) op.in_path
    && all (includes op.required) op.in_path

operations-well_formed : (dates : Dates) → all is_well_formed (operations dates) ≡ true
unfolding is_well_formed
operations-well_formed dates = refl

all-In :
    (test : Operation → Bool) (op : Operation) (ops : List Operation)
    → all test ops ≡ true
    → In op ops
    → test op ≡ true
all-In test op [] h found = absurd found
all-In test op (o ∷ ops) h (inl e) = subst (λ x. test x ≡ true) e (ground arith)
all-In test op (o ∷ ops) h (inr later) = all-In test op ops (ground arith) later

same_texts_iff : (ss ts : List String) → same_texts ss ts ≡ true → ss ≡ ts
same_texts_iff [] [] h = refl
same_texts_iff [] (t ∷ ts) h = cc
same_texts_iff (s ∷ ss) [] h = cc
same_texts_iff (s ∷ ss) (t ∷ ts) h =
    rw ((eq_iff s t).0 (ground arith), same_texts_iff ss ts (ground arith)) refl

all-filled :
    (platform : Platform) (params : Value) (segments : List Segment)
    → all is_clean segments ≡ true
    → All (λ s. lacks b'/' s ≡ true) (map (filled platform params) segments)
all-filled platform params [] h = tt
all-filled platform params (s ∷ segments) h = (
  lacks-filled platform params s (ground arith),
  all-filled platform params segments (ground arith),
)

four_ands :
    {a b c d : Bool} → (a && b && c && d) ≡ true → (a ≡ true) × (b ≡ true) × (c ≡ true) × (d ≡ true)
four_ands {a} {b} {c} {d} h = ground arith

module _ (platform : Platform) (params : Value) where
  fill_path-well_formed :
      (op : Operation)
      → is_well_formed op ≡ true
      → split b'/' (fill_path platform params op.in_path op.template)
        ≡ "" ∷ map (filled platform params) (segments_of op.template)
  unfolding is_well_formed
  fill_path-well_formed op h =
      let segments = segments_of op.template in
      let (same, clean, in_order, required) = four_ands h in
      ap (λ names. split b'/' (fill_path platform params names op.template))
        (sym (same_texts_iff _ op.in_path in_order))
      ∙ ap (λ t. split b'/' (fill_path platform params (holes segments) t))
          ((eq_iff op.template (slashed (map text_of segments))).0 same ∙ sym (nil-append _))
      ∙ ap (λ t. split b'/' t) (fill_path-slashed platform params segments "" refl clean)
      ∙ split-slashed "" (map (filled platform params) segments) refl
          (all-filled platform params segments clean)

  module _ (token : Option String) where
    path-request_opts :
        (op : Operation) (opts : RequestOpts)
        → request_opts platform token op params ≡ returned opts
        → opts.path ≡ fill_path platform params op.in_path op.template
    unfolding request_opts
    path-request_opts op opts h = ground arith

    none_missing :
        (op : Operation) (opts : RequestOpts)
        → request_opts platform token op params ≡ returned opts
        → first_missing op.required params ≡ none
    unfolding request_opts
    none_missing op opts h = ground arith

    request_opts-missing :
        (op : Operation) (name : String)
        → first_missing op.required params ≡ some name
        → request_opts platform token op params ≡ thrown (required_error name)
    unfolding request_opts
    request_opts-missing op name h = ground arith

found_missing :
    (names : List String) (params : Value) (name : String)
    → first_missing names params ≡ some name
    → (includes names name ≡ true) × (is_nullish (prop params name) ≡ true)
found_missing [] params name h = cc
found_missing (n ∷ names) params name h =
    ground (arith, eq_iff n name, found_missing names params name)

first_missing-none :
    (names : List String) (params : Value) (name : String)
    → first_missing names params ≡ none
    → includes names name ≡ true
    → is_nullish (prop params name) ≡ false
first_missing-none [] params name h k = cc
first_missing-none (n ∷ names) params name h k =
    ground (arith, eq_iff n name, first_missing-none names params name)

all_there :
    (names required : List String) (params : Value)
    → all (includes required) names ≡ true
    → first_missing required params ≡ none
    → All (λ name. is_nullish (prop params name) ≡ false) names
all_there [] required params h k = tt
all_there (name ∷ names) required params h k = (
  first_missing-none required params name k (ground arith),
  all_there names required params (ground arith) k,
)

true_not_false : true ≢ false
true_not_false h = cc

holes_required :
    (op : Operation) → is_well_formed op ≡ true → all (includes op.required) op.in_path ≡ true
unfolding is_well_formed
holes_required op h =
    (four_ands {a = op.template === slashed (map text_of (segments_of op.template))} h).3

module _ (platform : Platform) (dates : Dates) (token : Option String) (op : Operation)
    (params : Value) (opts : RequestOpts) where
  -- If the options of a request are made, for any operation of the API and any parameters, their path has the
  -- segments of the operation's template, where each hole is the encoded text of its parameter, which is
  -- there: no parameter adds a segment, or takes one away.
  pub request_opts-path :
      In op (operations dates)
      → request_opts platform token op params ≡ returned opts
      → (split b'/' opts.path ≡ "" ∷ map (filled platform params) (segments_of op.template))
        × All (λ name. is_nullish (prop params name) ≡ false) op.in_path
  request_opts-path known h =
      let well_formed =
        all-In is_well_formed op (operations dates) (operations-well_formed dates) known in
      (
        ap (λ t. split b'/' t) (path-request_opts platform params token op opts h)
            ∙ fill_path-well_formed platform params op well_formed,
        all_there op.in_path op.required params (holes_required op well_formed)
            (none_missing platform params token op opts h),
      )

module _ (platform : Platform) {World : Type 0} (config : Configuration World)
    (override : Init → Init) (op : Operation) (params : Value) (name : String) (w : World) where
  -- Without a parameter that is required, a call throws the error that names the first one that is missing, and no
  -- request is made.
  pub call-missing :
      includes op.required name ≡ true
      → is_nullish (prop params name) ≡ true
      → (missing : String) × (first_missing op.required params ≡ some missing)
        × (includes op.required missing ≡ true)
        × (is_nullish (prop params missing) ≡ true)
        × (call platform config override op params w ≡ (w, thrown (required_error missing)))
  unfolding call raw
  call-missing listed absent = elim (Option-cases (first_missing op.required params)) [
    | inl e ↦
        absurd (true_not_false (sym absent ∙ first_missing-none op.required params name e listed))
    | inr (missing, e) ↦
        let (known, nullish) = found_missing op.required params missing e in
        (
          missing,
          e,
          known,
          nullish,
          rw (request_opts-missing platform params config.access_token op missing e) refl,
        )
  ]
