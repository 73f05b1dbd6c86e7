-- ===== src/Utils/SignIn.antt =====
-- ui/v1/src/lib/router.ts and ui/v1/src/lib/utils/signin.ts: a signed-out visitor is sent to the login page,
-- and from there on to where they wanted to go.
use ragbag.Common.{
  ◌≡◌, refl, String, Bool, true, false, not, ◌&&◌, Option, none, some, if◌then◌else◌, truthy,
  nullish_or, Bool-cases, inl, inr, ◌∙◌,
}
use ragbag.Common.Dict.{erase, lookup-insert, lookup-erase, lookup-erase_self}
use ragbag.Common.Text.{◌<+>◌, ends_with}
use ragbag.Client.{Location, Client, Reply, ok, is_authenticated, app_base, login}
use ragbag.Client.Pending.{
  pending_invite_key, pending_add_key, match_invite, remember_pending_invite, remember_pending_add,
  pending_invite, take_pending_invite, take_pending_add, take-remember_pending_invite,
}
use ragbag.Sdk.Models.UserDto.{UserDto}
use ragbag.Stores.Spaces.{Session, reset_session, me_loaded}

-- Where `navigate` goes; `elsewhere` is an address that is loaded.
pub data Page : Type 0 where
  start_page setup_page login_page : Page
  invite_page elsewhere : String → Page

-- The hook `beforeLoad`, for a page that is public or not.
unfoldable pub before_load : Bool → Client → Client × Option Page
unfolding is_authenticated remember_pending_invite remember_pending_add
before_load is_public c =
    if not is_public && not (is_authenticated c)
    then (
      remember_pending_add c.location (remember_pending_invite c.location.pathname c),
      some login_page,
    )
    else (c, none)

-- `me?.mustChangePassword`
abbrev pub must_change : Session → Bool
must_change s = elim s.me [ none ↦ false | some me ↦ nullish_or me.must_change_password false ]

abbrev pub page_for : Option String → Option String → Client → Page
page_for invite none c = if truthy invite then invite_page (nullish_or invite "") else start_page
page_for invite (some search) c =
    if truthy invite
    then invite_page (nullish_or invite "")
    else elsewhere (app_base c <+> "/add" <+> search)

abbrev pub taken : Client → Page × Client
taken c =
    let (invite, c') = take_pending_invite c in
    let (search, c'') = take_pending_add c' in (page_for invite search c'', c'')

-- With the server's answer to `loadMe`, which asks since the session was reset.
unfoldable pub continue_after_sign_in : Reply UserDto → Client → Session → Page × Client × Session
unfolding take_pending_invite take_pending_add app_base reset_session me_loaded
continue_after_sign_in reply c s =
    let s' : Session = me_loaded reply (reset_session s) in
    if must_change s' then (setup_page, c, s') else ((taken c).0, (taken c).1, s')

page_for-invite :
    (invite : String) (search : Option String) (c : Client)
    → truthy (some invite) ≡ true
    → page_for (some invite) search c ≡ invite_page invite
page_for-invite invite none c h = rw h
page_for-invite invite (some search) c h = rw h

-- Remembering a link to add does not touch the invite.
pending_invite-remember_pending_add :
    (place : Location) (c : Client)
    → pending_invite (remember_pending_add place c) ≡ pending_invite c
unfolding remember_pending_add pending_invite
pending_invite-remember_pending_add place c = elim (Bool-cases (ends_with place.pathname "/add")) [
  | inl adds ↦
      rw adds (lookup-insert pending_add_key pending_invite_key place.search c.session_storage)
  | inr other ↦ rw other
]

continue_invite :
    (c : Client) (s : Session) (reply : Reply UserDto) (invite : String)
    → pending_invite c ≡ some invite
    → truthy (some invite) ≡ true
    → must_change (me_loaded reply (reset_session s)) ≡ false
    → (continue_after_sign_in reply c s).0 ≡ invite_page invite
unfolding continue_after_sign_in pending_invite
continue_invite c s reply invite h ne old =
    rw (old, h)
      (page_for-invite invite (take_pending_add (take_pending_invite c).1).0
        (take_pending_add (take_pending_invite c).1).1 ne)

-- A signed-out visitor who opens an invite, whose token is not empty, on a page that is not public is sent to
-- the login page and, once signed in there, to that invite, unless the password must be changed first.
pub continue-before_load_invite :
    (c : Client) (s : Session) (invite password token : String) (reply : Reply UserDto)
    → is_authenticated c ≡ false
    → match_invite c.location.pathname ≡ some invite
    → truthy (some invite) ≡ true
    → must_change (me_loaded reply (reset_session s)) ≡ false
    → let (c', sent) = before_load false c in
      (sent ≡ some login_page)
      × ((continue_after_sign_in reply (login password (ok token) c').0 s).0 ≡ invite_page invite)
unfolding before_load login pending_invite
continue-before_load_invite c s invite password token reply out at ne old = rw out (
  refl,
  continue_invite
      (login password (ok token)
        (remember_pending_add c.location (remember_pending_invite c.location.pathname c))).0
      s reply invite
      (pending_invite-remember_pending_add c.location
          (remember_pending_invite c.location.pathname c)
        ∙ (take-remember_pending_invite c.location.pathname invite c at).0)
      ne old,
)

-- A visitor whose password must be changed goes to the set-up page, and what was remembered is kept for
-- later. Else nothing stays remembered, and who had nothing remembered goes to the start page.
pub continue_cases :
    (c : Client) (s : Session) (reply : Reply UserDto)
    → let (page, c', s') = continue_after_sign_in reply c s in
      (must_change s' ≡ true → (page ≡ setup_page) × (c' ≡ c))
      × (must_change s' ≡ false
          → (pending_invite c' ≡ none)
            × ((take_pending_add c').0 ≡ none)
            × (pending_invite c ≡ none → (take_pending_add c).0 ≡ none → page ≡ start_page))
unfolding continue_after_sign_in pending_invite take_pending_add
continue_cases c s reply =
    let store = c.session_storage in
    let others = lookup-erase pending_invite_key pending_add_key store in
    elim (Bool-cases (must_change (me_loaded reply (reset_session s)))) [
      | inl new ↦ rw new (λ h. (refl, refl), λ h. cc)
      | inr old ↦ rw old (
        λ h. cc,
        λ h. (
          lookup-erase pending_add_key pending_invite_key (erase pending_invite_key store)
              ∙ lookup-erase_self pending_invite_key store,
          lookup-erase_self pending_add_key (erase pending_invite_key store),
          λ no_invite no_add. rw (no_invite, others ∙ no_add) refl,
        ),
      )
    ]
