-- ===== src/Client/Pending.antt =====
-- client.ts: the invite and the link to add that survive the way over the login page.
use Prim.Native.String.{[], ◌∷◌}
use Prim.Native.Char.{code}
use text.Mathlib.TextLemmas.{cons-append}
use ragbag.Common.{
  ◌≡◌, ◌≢◌, refl, ap, subst, sym, truthy, arith, String, true, Option, none, some, if◌then◌else◌,
  or_else,
}
use ragbag.Common.Dict.{lookup, insert, erase, lookup-insert_self, lookup-erase_self}
use ragbag.Common.Text.{◌<+>◌, strip_prefix, strip_prefix-append, ends_with, segment}
use ragbag.Client.Defs.{Location, Client}

abbrev pub pending_invite_key : String
pending_invite_key = "pending_invite"

abbrev pub pending_add_key : String
pending_add_key = "pending_add"

-- `[^/]+` at the beginning of a text, which has to match something.
abbrev nonempty_segment : String → Option String
nonempty_segment s = elim (segment s) [ [] ↦ none | c ∷ t ↦ some (c ∷ t) ]

abbrev invite_here : String → Option String
invite_here s = elim (strip_prefix "/invite/" s) [ none ↦ none | some rest ↦ nonempty_segment rest ]

-- The group of `pathname.match(/\/invite\/([^/]+)/)`: the leftmost match.
unfoldable pub match_invite : String → Option String
unfolding strip_prefix segment
match_invite [] = none
match_invite (c ∷ s) = or_else (invite_here (c ∷ s)) (match_invite s)

unfoldable pub remember_pending_invite : String → Client → Client
unfolding match_invite insert
remember_pending_invite pathname c = elim (match_invite pathname) [
  | none ↦ c
  | some token ↦ record c { session_storage = insert pending_invite_key token c.session_storage }
]

unfoldable pub remember_pending_add : Location → Client → Client
unfolding ends_with insert
remember_pending_add place c =
    if ends_with place.pathname "/add"
    then record c { session_storage = insert pending_add_key place.search c.session_storage }
    else c

unfoldable pub take_pending_add : Client → Option String × Client
unfolding lookup erase
take_pending_add c = (
  lookup pending_add_key c.session_storage,
  record c { session_storage = erase pending_add_key c.session_storage },
)

unfoldable pub pending_invite : Client → Option String
unfolding lookup
pending_invite c = lookup pending_invite_key c.session_storage

unfoldable pub take_pending_invite : Client → Option String × Client
unfolding lookup erase
take_pending_invite c = (
  lookup pending_invite_key c.session_storage,
  record c { session_storage = erase pending_invite_key c.session_storage },
)

-- What was remembered for the way over the login page is handed out once, and then forgotten.
take-remember_pending_add :
    (place : Location) (c : Client)
    → ends_with place.pathname "/add" ≡ true
    → let (search, c') = take_pending_add (remember_pending_add place c) in
      (search ≡ some place.search) × ((take_pending_add c').0 ≡ none)
unfolding remember_pending_add take_pending_add
take-remember_pending_add place c h = rw h (
  lookup-insert_self pending_add_key place.search c.session_storage,
  lookup-erase_self pending_add_key (insert pending_add_key place.search c.session_storage),
)

-- An invite is remembered with the token that stands in the path, and handed out once. Looking at it
-- (`pendingInvite`) does not use it up.
pub take-remember_pending_invite :
    (pathname token : String) (c : Client)
    → match_invite pathname ≡ some token
    → let c' = remember_pending_invite pathname c in
      (pending_invite c' ≡ some token)
      × ((take_pending_invite c').0 ≡ some token)
      × ((take_pending_invite (take_pending_invite c').1).0 ≡ none)
unfolding remember_pending_invite take_pending_invite pending_invite
take-remember_pending_invite pathname token c h =
    subst
      (λ m.
        let c' : Client = elim m [
          | none ↦ c
          | some t ↦ record c { session_storage = insert pending_invite_key t c.session_storage }
        ] in
        (lookup pending_invite_key c'.session_storage ≡ some token)
        × (lookup pending_invite_key c'.session_storage ≡ some token)
        × (lookup pending_invite_key (erase pending_invite_key c'.session_storage) ≡ none))
      (sym h)
      (
        lookup-insert_self pending_invite_key token c.session_storage,
        lookup-insert_self pending_invite_key token c.session_storage,
        lookup-erase_self pending_invite_key (insert pending_invite_key token c.session_storage),
      )

abbrev pub IsSegment : String → Type 0
IsSegment [] = Unit
IsSegment (first ∷ rest) = IsSegment rest × (code first ≢ b'/')

segment_self : (s : String) → IsSegment s → segment s ≡ s
unfolding segment
segment_self [] h = refl
segment_self (c ∷ s) (h, ne) = ground (arith, segment_self s h)

nonempty_segment_self :
    (s : String) → IsSegment s → truthy (some s) ≡ true → nonempty_segment s ≡ some s
nonempty_segment_self [] h ne = cc
nonempty_segment_self (c ∷ s) h ne = rw (segment_self (c ∷ s) h, nonempty_segment)

invite_here-of_strip :
    (s token t : String)
    → strip_prefix "/invite/" s ≡ some token
    → nonempty_segment token ≡ some t
    → invite_here s ≡ some t
invite_here-of_strip s token t e h = rw (e, invite_here) h

match_invite-here :
    (s token : String) (t : String)
    → strip_prefix "/invite/" s ≡ some token
    → nonempty_segment token ≡ some t
    → match_invite s ≡ some t
unfolding match_invite
match_invite-here [] token t e h = cc
match_invite-here (c ∷ s) token t e h =
    ap (λ o. or_else o (match_invite s)) (invite_here-of_strip (c ∷ s) token t e h)

match_invite-skip : (s : String) → match_invite ("/" ∷ "a" ∷ "p" ∷ "p" ∷ s) ≡ match_invite s
unfolding match_invite
match_invite-skip s = refl

app_text : (s : String) → "/app/invite/" <+> s ≡ "/" ∷ "a" ∷ "p" ∷ "p" ∷ ("/invite/" <+> s)
app_text s = rw (cons-append, cons-append, cons-append, cons-append)

-- The address of an invite, at the root or below `/app`, is recognised with its token, if the token is not
-- empty and has no slash.
match_invite-of_address :
    (token : String)
    → IsSegment token
    → truthy (some token) ≡ true
    → (match_invite ("/invite/" <+> token) ≡ some token)
      × (match_invite ("/app/invite/" <+> token) ≡ some token)
match_invite-of_address token h ne =
    let here =
      match_invite-here ("/invite/" <+> token) token token (strip_prefix-append "/invite/" token)
        (nonempty_segment_self token h ne) in
    (here, rw (app_text token, match_invite-skip ("/invite/" <+> token)) here)
