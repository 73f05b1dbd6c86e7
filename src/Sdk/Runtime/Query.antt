-- ===== src/Sdk/Runtime/Query.antt =====
-- `querystring` of sdk/runtime.ts.
--
-- The values are those of JSON and dates; a `Set` is first made an array in the source, and no operation
-- passes one. none is a thrown error.
pub mod Joining
pub mod Pairs
use ragbag.Common.{
  ℕ, ◌≡◌, ◌≢◌, refl, String, Bool, true, false, not, Option, none, some, List, [], ◌∷◌, ◌++◌, map,
  if◌then◌else◌, ◌===◌, keep, truthy,
}
use ragbag.Common.Text.{◌<+>◌}
use ragbag.Sdk.Value.{
  Value, undefined, null, bool, num, text, date, arr, obj, Items, nil, cons, Fields, field, end,
  Dates,
}
use ragbag.Sdk.Codec.{◌>>=◌}
use ragbag.Sdk.Runtime.Uri.{encode_uri_component}
use ragbag.Sdk.Runtime.{Platform, shown, join}

-- `keyPrefix + (keyPrefix.length ? `[${key}]` : key)`
abbrev pub full_key : String → String → String
full_key prefix key = if truthy (some prefix) then prefix <+> "[" <+> key <+> "]" else key

-- `${encodeURIComponent(key)}=${…}`
abbrev pub assignment : String → String → String
assignment key value = encode_uri_component key <+> "=" <+> value

-- `parts.filter((part) => part.length > 0).join('&')`
abbrev pub joined : List String → String
joined parts = join "&" (keep (λ part. truthy (some part)) parts)

module _ (platform : Platform) where
  abbrev pub encoded_items : Items → List String
  encoded_items nil = []
  encoded_items (cons v vs) = encode_uri_component (shown platform v) ∷ encoded_items vs

  abbrev date_part : String → Option String → Option String
  date_part key none = none
  date_part key (some iso) = some (assignment key (encode_uri_component iso))

  -- `serializeDateTime`, which throws for an invalid date.
  abbrev iso_text : Option ℕ → Option String
  iso_text none = none
  iso_text (some t) = some (platform.dates.iso t)

  unfoldable mutual
    unfolding encode_uri_component shown join

    -- `Object.keys(params).map(…)`
    pub query_parts : Fields → String → Option (List String)
    query_parts end prefix = some []
    query_parts (field key value rest) prefix = do
      part ← querystring_single_key (full_key prefix key) value
      parts ← query_parts rest prefix
      some (part ∷ parts)

    pub querystring_single_key : String → Value → Option String
    querystring_single_key key (arr vs) =
        some (assignment key (join ("&" <+> encode_uri_component key <+> "=") (encoded_items vs)))
    querystring_single_key key (date t) = date_part key (iso_text t)
    querystring_single_key key (obj fs) = do parts ← query_parts fs key; some (joined parts)
    querystring_single_key key v = some (assignment key (encode_uri_component (shown platform v)))

  unfoldable pub querystring : Fields → String → Option String
  unfolding query_parts
  querystring params prefix = do parts ← query_parts params prefix; some (joined parts)
