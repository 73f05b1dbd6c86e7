-- ===== src/Utils/Images.antt =====
-- ui/v1/src/lib/utils/links.ts: the image that a link shows.
use ragbag.Common.{
  ◌≡◌, ◌⊎◌, inl, inr, refl, String, Bool, true, false, Option, none, some, if◌then◌else◌, truthy,
  nullish_or, or_else, arith, sym, Option-cases,
}
use ragbag.Common.Text.{◌<+>◌}
use ragbag.Utils.Urls.{Browser, safe_url, IsWeb, safe_url-IsWeb, if_some, if_cases}

pub record ImageSource : Type 0 where
  pub og_image : Option String
  pub custom_image_id : Option String
  pub custom_image_url : Option String
  pub image_hidden : Option Bool

-- `imageUrl` of api/client.ts, with the base path that the build sets.
abbrev pub image_url : String → String → String
image_url base_path id = base_path <+> "/v1/images/" <+> id

module _ (browser : Browser) (base_path : String) where
  abbrev pub remote_image : ImageSource → Option String
  remote_image source =
      or_else (safe_url browser source.custom_image_url) (safe_url browser source.og_image)

  unfoldable pub preview_image : ImageSource → Option String
  unfolding safe_url
  preview_image source =
      if nullish_or source.image_hidden false
      then none
      else if truthy source.custom_image_id
      then some (image_url base_path (nullish_or source.custom_image_id ""))
      else remote_image source

  remote_image-IsWeb :
      (own found : Option String) (url : String)
      → or_else (safe_url browser own) (safe_url browser found) ≡ some url
      → IsWeb browser url
  remote_image-IsWeb own found url h = elim (Option-cases (safe_url browser own)) [
    | inl absent ↦ safe_url-IsWeb browser found url (ground arith)
    | inr (a, present) ↦ safe_url-IsWeb browser own url (ground arith)
  ]

  shown_cases :
      (hidden : Bool) (upload rest : Option String) (url : String)
      → (if hidden
          then none
          else if truthy upload
          then some (image_url base_path (nullish_or upload ""))
          else rest)
        ≡ some url
      → ((id : String) × (upload ≡ some id) × (url ≡ image_url base_path id)) ⊎ (rest ≡ some url)
  shown_cases true upload rest url h = cc
  shown_cases false none rest url h = inr h
  shown_cases false (some id) rest url h =
      elim (if_cases (truthy (some id)) (some (image_url base_path id)) rest (some url) h) [
        | inl k ↦ inl (id, refl, sym (if_some true (image_url base_path id) url k).1)
        | inr k ↦ inr k
      ]

  -- A link that hides its image shows none; an image that is shown is an upload of the instance, or its
  -- address is one of the web, never of another protocol, whoever stored it.
  pub preview_image-IsSafe :
      (source : ImageSource)
      → (source.image_hidden ≡ some true → preview_image source ≡ none)
        × ((url : String)
            → preview_image source ≡ some url
            → ((id : String) × (source.custom_image_id ≡ some id) × (url ≡ image_url base_path id))
              ⊎ IsWeb browser url)
  unfolding preview_image
  preview_image-IsSafe source = (
    λ h. rw h,
    λ url h.
        elim (shown_cases (nullish_or source.image_hidden false) source.custom_image_id
          (remote_image source) url h) [
            | inl upload ↦ inl upload
            | inr rest ↦ inr (remote_image-IsWeb source.custom_image_url source.og_image url rest)
          ],
  )
