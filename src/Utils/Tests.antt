-- ===== src/Utils/Tests.antt =====
-- Links in a small browser, and the theorems at them.
use Prim.Native.String.{count}
use mathlib.Core.List.{Perm}
use ragbag.Common.{
  ◌%◌, ◌<◌, ◌≤◌, In, ℕ, ◌≡◌, ◌⊎◌, refl, String, true, false, Option, none, some, List, [], ◌∷◌,
  keep,
}
use ragbag.Common.Text.{strip_prefix, segment}
use ragbag.Client.{Client, ok, failed, load, is_authenticated, login}
use ragbag.Client.Pending.{match_invite, pending_invite, take_pending_add}
use ragbag.Stores.Preferences.{name}
use ragbag.Stores.Spaces.{Session, me_loaded, reset_session}
use ragbag.Utils.SignIn.{
  setup_page, login_page, start_page, invite_page, before_load, must_change, continue_after_sign_in,
  continue-before_load_invite, continue_cases,
}
use ragbag.Utils.Sort.{minus, is_same, key-IsOrder, minus-IsOrder}
use ragbag.Utils.Urls.{Url, Browser, IsWeb}
use ragbag.Utils.Links.{
  AllInOrder, InOrder, SortableLink, compare_by, sort_links, sort_links_stable,
}
use ragbag.Utils.Colors.{avatar_colors, hash_from, magnitude, polynomial, color_for, color_for-In}
use ragbag.Utils.Images.{ImageSource, image_url, preview_image, preview_image-IsSafe}

abbrev web_url : Option String → Option Url
web_url none = none
web_url (some rest) = some (record { protocol = "https:"; hostname = segment rest })

-- Texts are collated by their lengths, and `https` is the one protocol.
abbrev browser : Browser
browser = record {
  collate = λ a b. minus (count a) (count b);
  collate-IsOrder = key-IsOrder count minus minus-IsOrder;
  parse_url = λ url. web_url (strip_prefix "https://" url);
  trim = λ s. s;
  to_lower_case = λ s. s;
}

abbrev titled : String → ℕ → List String → SortableLink
titled title at tags = record {
  url = "https://example.org/";
  title = some title;
  description = none;
  tags = some tags;
  created_at = some at;
}

abbrev links : List SortableLink
links = titled "ccc" 1 ("x" ∷ []) ∷ titled "a" 2 ("x" ∷ "y" ∷ []) ∷ titled "b" 3 ("y" ∷ []) ∷ []

sorted_by_name :
    sort_links browser (λ l. l) links name
    ≡ titled "b" 3 ("y" ∷ []) ∷ titled "a" 2 ("x" ∷ "y" ∷ []) ∷ titled "ccc" 1 ("x" ∷ []) ∷ []
unfolding sort_links
sorted_by_name = refl

sort_links_stable_example :
    Perm links (sort_links browser (λ l. l) links name)
    × AllInOrder browser (InOrder browser name) (sort_links browser (λ l. l) links name)
    × ((z : SortableLink)
        → keep (λ y. is_same (compare_by browser name z y)) (sort_links browser (λ l. l) links name)
          ≡ keep (λ y. is_same (compare_by browser name z y)) links)
sort_links_stable_example = sort_links_stable browser (λ l. l) links name

abbrev source : ImageSource
source = record {
  og_image = some "https://example.org/a.png";
  custom_image_id = none;
  custom_image_url = some "javascript:alert(1)";
  image_hidden = some false;
}

shows_page_image : preview_image browser "/api" source ≡ some "https://example.org/a.png"
unfolding preview_image strip_prefix
shows_page_image = refl

preview_image-IsSafe_example :
    (source.image_hidden ≡ some true → preview_image browser "/api" source ≡ none)
    × ((url : String)
        → preview_image browser "/api" source ≡ some url
        → ((id : String) × (source.custom_image_id ≡ some id) × (url ≡ image_url "/api" id))
          ⊎ IsWeb browser url)
preview_image-IsSafe_example = preview_image-IsSafe browser "/api" source

abbrev visitor : Client
visitor =
    load [] [] (record {
      origin = "https://r.example";
      pathname = "/app/invite/i7";
      search = "";
      href = none;
    })

abbrev no_spaces : Session
no_spaces = record {
  spaces = [];
  loaded = false;
  me = none;
  loading = false;
  local_storage = [];
  storage_available = true;
}

continue-before_load_invite_example :
    let (c', sent) = before_load false visitor in
    (sent ≡ some login_page)
    × ((continue_after_sign_in failed (login "pw" (ok "t1") c').0 no_spaces).0 ≡ invite_page "i7")
unfolding load is_authenticated match_invite me_loaded reset_session
continue-before_load_invite_example =
    continue-before_load_invite visitor no_spaces "i7" "pw" "t1" failed refl refl refl refl

continue_cases_example :
    let (page, c', s') = continue_after_sign_in failed visitor no_spaces in
    (must_change s' ≡ true → (page ≡ setup_page) × (c' ≡ visitor))
    × (must_change s' ≡ false
        → (pending_invite c' ≡ none)
          × ((take_pending_add c').0 ≡ none)
          × (pending_invite visitor ≡ none
              → (take_pending_add visitor).0 ≡ none
              → page ≡ start_page))
continue_cases_example = continue_cases visitor no_spaces failed

color_of_research : color_for "Team Research" ≡ some "bg-teal-500"
unfolding color_for hash_from
color_of_research = refl

color_for-In_example :
    (hash_from 0 "Team Research" ≡ polynomial 0 "Team Research" % 4294967296)
    × (hash_from 0 "Team Research" < 4294967296)
    × (magnitude (hash_from 0 "Team Research") ≤ 2147483648)
    × ((color : String) × (color_for "Team Research" ≡ some color) × In color avatar_colors)
color_for-In_example = color_for-In "Team Research"
