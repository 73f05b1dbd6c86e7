-- ===== src/Stores/Spaces.antt =====
-- ui/v1/src/lib/stores/spaces.svelte.ts: the spaces of the user, and the one that opens on start.
--
-- A `localStorage` that is not available throws at every access. Loading the spaces is cut where it
-- awaits the server.
use Prim.Native.String.{count}
use text.Mathlib.TextLemmas.{append_cancel_left, length-append}
use ragbag.Common.{
  ◌≡◌, ◌≢◌, refl, String, Bool, true, false, ◌&&◌, ◌||◌, Option, none, some, List, [], ◌∷◌,
  if◌then◌else◌, truthy, or_else, ◌===◌, arith, eq_iff, eq_refl, Bool-cases, inl, inr, ap,
}
use ragbag.Common.Dict.{lookup, insert, lookup-insert, lookup-insert_self}
use ragbag.Common.Text.{◌<+>◌}
use ragbag.Client.{Storage, Reply, ok, failed}
use ragbag.Sdk.Models.SpaceDto.{SpaceDto}
use ragbag.Sdk.Models.UserDto.{UserDto}

pub record Session : Type 0 where
  pub spaces : List SpaceDto
  pub loaded : Bool
  pub me : Option UserDto
  -- `loading !== null`
  pub loading : Bool
  pub local_storage : Storage
  pub storage_available : Bool

-- `loadSpaces` up to the request: whether one is sent (the promise of one under way is shared).
unfoldable pub load_spaces : Session → Session × Bool
load_spaces s = if s.loading then (s, false) else (record s { loading = true }, true)

-- The rest of it, `finally` included.
unfoldable pub spaces_loaded : Reply (List SpaceDto) → Session → Session
spaces_loaded failed s = record s { loading = false }
spaces_loaded (ok spaces) s = record s { spaces = spaces; loaded = true; loading = false }

-- `loadMe` up to the request: whether one is sent.
unfoldable pub load_me : Session → Session × Bool
load_me s = elim s.me [ none ↦ (s, true) | some user ↦ (s, false) ]

unfoldable pub me_loaded : Reply UserDto → Session → Session
me_loaded failed s = s
me_loaded (ok user) s = record s { me = some user }

-- `setStartSpace` with the server's answer: the user as the server now knows it.
unfoldable pub set_start_space : Reply UserDto → Session → Session
set_start_space failed s = s
set_start_space (ok user) s = record s { me = some user }

unfoldable pub reset_session : Session → Session
reset_session s = record s { spaces = []; loaded = false; me = none }

abbrev pub legacy_key : String
legacy_key = "last_space"

unfoldable pub last_space_key : Session → Option String
last_space_key s = elim s.me [ none ↦ none | some user ↦ some ("last_space:" <+> user.id) ]

unfoldable pub remember_space : String → Session → Session
unfolding last_space_key insert
remember_space space_id s = elim (last_space_key s) [
  | none ↦ s
  | some key ↦
      if s.storage_available
      then record s { local_storage = insert key space_id s.local_storage }
      else s
]

-- `key && localStorage.getItem(key)`
abbrev own_space : Option String → Storage → Option String
own_space none local = none
own_space (some key) local = lookup key local

-- `a || b` on texts that may be missing.
abbrev pub or_text : Option String → Option String → Option String
or_text a b = if truthy a then a else b

unfoldable pub last_space_id : Session → Option String
unfolding last_space_key lookup
last_space_id s =
    if s.storage_available
    then or_text (own_space (last_space_key s) s.local_storage) (lookup legacy_key s.local_storage)
    else none

-- `session.spaces.some((space) => space.id === id)`
abbrev pub has_space : List SpaceDto → String → Bool
has_space [] id = false
has_space (space ∷ spaces) id = space.id === id || has_space spaces id

abbrev pub is_member : Session → Option String → Bool
is_member s none = false
is_member s (some id) = truthy (some id) && has_space s.spaces id

-- `spaceBarOrder.find(member)`
abbrev pub find_member : Session → List String → Option String
find_member s [] = none
find_member s (id ∷ ids) = if is_member s (some id) then some id else find_member s ids

-- `session.spaces[0]?.id`
abbrev pub first_space : List SpaceDto → Option String
first_space [] = none
first_space (space ∷ spaces) = some space.id

-- `session.me?.startSpaceId`
abbrev pub chosen_space : Session → Option String
chosen_space s = elim s.me [ none ↦ none | some user ↦ user.start_space_id ]

unfoldable pub start_space_id : List String → Session → Option String
unfolding last_space_id
start_space_id order s =
    if is_member s (chosen_space s)
    then chosen_space s
    else if is_member s (last_space_id s)
    then last_space_id s
    else or_else (find_member s order) (first_space s.spaces)

-- The space is one of the user's.
abbrev pub IsOwn : Session → Option String → Type 0
IsOwn s none = s.spaces ≡ []
IsOwn s (some id) = has_space s.spaces id ≡ true

first_space-IsOwn :
    (s : Session) (spaces : List SpaceDto) → s.spaces ≡ spaces → IsOwn s (first_space spaces)
first_space-IsOwn s [] h = h
first_space-IsOwn s (space ∷ spaces) h = rw (h, eq_refl space.id)

member-IsOwn : (s : Session) (o : Option String) → is_member s o ≡ true → IsOwn s o
member-IsOwn s none h = cc
member-IsOwn s (some id) h = ground arith

found-IsOwn :
    (s : Session) (order : List String)
    → IsOwn s (or_else (find_member s order) (first_space s.spaces))
found-IsOwn s [] = first_space-IsOwn s s.spaces refl
found-IsOwn s (id ∷ ids) = elim (Bool-cases (is_member s (some id))) [
  | inl here ↦ rw here (member-IsOwn s (some id) here)
  | inr later ↦ rw later (found-IsOwn s ids)
]

-- The space that opens on start is always one of the user's, and there is none exactly if the user has no
-- space at all: spaces that were left or deleted are skipped wherever they are remembered.
pub start_space_id-IsOwn : (order : List String) (s : Session) → IsOwn s (start_space_id order s)
unfolding start_space_id
start_space_id-IsOwn order s = elim (Bool-cases (is_member s (chosen_space s))) [
  | inl chosen ↦ rw chosen (member-IsOwn s (chosen_space s) chosen)
  | inr a ↦ elim (Bool-cases (is_member s (last_space_id s))) [
    | inl last ↦ rw (a, last) (member-IsOwn s (last_space_id s) last)
    | inr b ↦ rw (a, b) (found-IsOwn s order)
  ]
]

-- The order of preference: the chosen space, else the last one, each if the user is (still) a member.
start_space_id_cases :
    (order : List String) (s : Session)
    → (is_member s (chosen_space s) ≡ true → start_space_id order s ≡ chosen_space s)
      × (is_member s (chosen_space s) ≡ false
          → is_member s (last_space_id s) ≡ true
          → start_space_id order s ≡ last_space_id s)
unfolding start_space_id
start_space_id_cases order s = (λ h. rw h, λ h k. rw (h, k))

key_ne : (a b : String) → a ≢ b → ("last_space:" <+> a) ≢ ("last_space:" <+> b)
key_ne a b ne e = ne (append_cancel_left "last_space:" a b e)

key_ne_legacy : (a : String) → ("last_space:" <+> a) ≢ legacy_key
key_ne_legacy a e = absurd (omega (arith, length-append "last_space:" a, ap count e))

-- A space, with an id that is not empty, that is remembered for a user is the last one from then on, if the
-- storage is available; for another user of the browser nothing changes.
last_space_id-remember_space :
    (space_id : String) (s : Session) (user other : UserDto)
    → s.me ≡ some user
    → s.storage_available ≡ true
    → truthy (some space_id) ≡ true
    → user.id ≢ other.id
    → (last_space_id (remember_space space_id s) ≡ some space_id)
      × (last_space_id (record (remember_space space_id s) { me = some other })
          ≡ last_space_id (record s { me = some other }))
unfolding remember_space last_space_id
last_space_id-remember_space space_id s user other e a t ne =
    let mine : String = "last_space:" <+> user.id in
    let theirs : String = "last_space:" <+> other.id in
    (
      ground (arith, lookup-insert_self mine space_id s.local_storage),
      ground (
        arith,
        lookup-insert mine theirs space_id s.local_storage,
        lookup-insert mine legacy_key space_id s.local_storage,
        eq_iff mine theirs,
        eq_iff mine legacy_key,
        key_ne user.id other.id ne,
        key_ne_legacy user.id,
      ),
    )
