-- ===== src/Client/Refresh.antt =====
-- client.ts: requests that meet a 401 share one refresh (`refreshPromise`).
--
-- The event loop is a function of a schedule. `arrive` is a response that reaches its handler, `settle`
-- the end of the call that `refreshAccessToken` makes (with its `finally`), `resume` the continuation
-- of the handler that has waited longest; between them anything may happen that `act` stands for.
pub mod Drain
pub mod Waiters
use ragbag.Common.{
  ℕ, zero, suc, ◌+◌, ◌≡◌, ◌≤◌, refl, String, Bool, true, false, Option, none, some, List, [], ◌∷◌,
  ◌++◌, map, if◌then◌else◌, arith, length, length-append, append_assoc, append-nil, ap, sym, ◌∙◌,
}
use ragbag.Client.Defs.{
  Client, Reply, ok, failed, set_access_token, refresh_access_token, app_base, go_to, take_token,
  logout,
}
use ragbag.Client.Interceptor.{
  Request, Response, Verdict, pass, wait, post_first, post_first-refreshing, post_resume,
  post_resume-refreshing, retry_of,
}

pub record Loop : Type 0 where
  pub client : Client
  -- handlers that await the refresh under way
  pub waiting : List Request
  -- handlers whose refresh is over, with its result, first come first served
  pub ready : List (Request × Bool)
  -- the requests sent once more, and those given up at the login page
  pub retried : List Request
  pub given_up : List Request
  -- how many refreshes have begun and have ended
  pub begun : ℕ
  pub ended : ℕ

-- What the rest of the client may do in between: sign in or out with a result of the server.
pub data Act : Type 0 where
  sign_in : Reply String → Act
  sign_out : Reply (Unit {0}) → Act

pub data Event : Type 0 where
  arrive : Request → Response → Event
  settle : Reply String → Event
  resume : Event
  act : Act → Event

abbrev perform : Act → Client → Client
perform (sign_in r) c = (take_token r c).0
perform (sign_out r) c = (logout r c).0

-- A handler that is to wait begins a refresh if none is under way.
abbrev pub after_first : Loop → Request → Client × Verdict → Loop
after_first s request (c, pass) = record s { client = c }
after_first s request (c, wait) = record s {
  client = c;
  waiting = s.waiting ++ request ∷ [];
  begun = if s.client.refreshing then s.begun else suc s.begun;
}

abbrev pub with_result : Bool → List Request → List (Request × Bool)
with_result b [] = []
with_result b (q ∷ qs) = (q, b) ∷ with_result b qs

abbrev pub after_settle : Loop → Client × Bool → Loop
after_settle s (c, success) = record s {
  client = record c { refreshing = false };
  waiting = [];
  ready = s.ready ++ with_result success s.waiting;
  ended = suc s.ended;
}

abbrev pub after_resume : Loop → Request → Client × Option Request → Loop
after_resume s request (c, none) = record s { client = c; given_up = s.given_up ++ request ∷ [] }
after_resume s request (c, some retry) = record s { client = c; retried = s.retried ++ retry ∷ [] }

abbrev pub resume_next : Loop → List (Request × Bool) → Loop
resume_next s [] = s
resume_next s ((request, success) ∷ later) =
    after_resume (record s { ready = later }) request (post_resume request success s.client)

unfoldable pub step : Loop → Event → Loop
unfolding post_first post_resume refresh_access_token logout set_access_token
step s (arrive request response) = after_first s request (post_first request response s.client)
step s (settle reply) =
    if s.client.refreshing then after_settle s (refresh_access_token reply s.client) else s
step s resume = resume_next s s.ready
step s (act a) = record s { client = perform a s.client }

unfoldable pub run : Loop → List Event → Loop
unfolding step
run s [] = s
run s (e ∷ es) = run (step s e) es

-- The handlers that have waited, in any stage.
abbrev pub waited : Loop → ℕ
waited s = length s.waiting + length s.ready + length s.retried + length s.given_up

-- One refresh at most is under way, and no handler waits for none.
pub record IsValid (s : Loop) : Type 0 where
  pub one_refresh : s.begun ≡ s.ended + (if s.client.refreshing then 1 else 0)
  pub awaited : s.client.refreshing ≡ false → s.waiting ≡ []

after_first-IsValid :
    (s : Loop) (q : Request) (r : Client × Verdict)
    → (r.1 ≡ pass → r.0.refreshing ≡ s.client.refreshing)
    → (r.1 ≡ wait → r.0.refreshing ≡ true)
    → IsValid s
    → IsValid (after_first s q r)
after_first-IsValid s q (c, pass) p w v = ground (arith, p refl)
after_first-IsValid s q (c, wait) p w v = ground (arith, w refl)

after_resume-IsValid :
    (s : Loop) (q : Request) (r : Client × Option Request)
    → r.0.refreshing ≡ s.client.refreshing
    → IsValid s
    → IsValid (after_resume s q r)
after_resume-IsValid s q (c, none) e v = ground arith
after_resume-IsValid s q (c, some retry) e v = ground arith

resume_next-IsValid :
    (s : Loop) (ready : List (Request × Bool)) → IsValid s → IsValid (resume_next s ready)
resume_next-IsValid s [] v = v
resume_next-IsValid s ((q, b) ∷ later) v =
    after_resume-IsValid (record s { ready = later }) q (post_resume q b s.client)
      (post_resume-refreshing q b s.client)
      (record { one_refresh = v.one_refresh; awaited = v.awaited })

perform-refreshing : (a : Act) (c : Client) → (perform a c).refreshing ≡ c.refreshing
unfolding logout set_access_token
perform-refreshing (sign_in (ok t)) c = refl
perform-refreshing (sign_in failed) c = refl
perform-refreshing (sign_out (ok t)) c = refl
perform-refreshing (sign_out failed) c = refl

settle-IsValid :
    (s : Loop) (r : Client × Bool)
    → IsValid s
    → IsValid (if s.client.refreshing then after_settle s r else s)
settle-IsValid s (c, b) v = ground arith

-- Every step of the event loop keeps the invariant.
pub step-IsValid : (s : Loop) (e : Event) → IsValid s → IsValid (step s e)
unfolding step
step-IsValid s (arrive q r) v =
    let (p, w) = post_first-refreshing q r s.client in
    after_first-IsValid s q (post_first q r s.client) p w v
step-IsValid s (settle r) v = settle-IsValid s (refresh_access_token r s.client) v
step-IsValid s resume v = resume_next-IsValid s s.ready v
step-IsValid s (act a) v = ground (arith, perform-refreshing a s.client)

-- Whatever the order of responses, refreshes and other operations, at most one refresh is under way at
-- any time, and no handler waits while there is none.
pub run-IsValid : (s : Loop) (es : List Event) → IsValid s → IsValid (run s es)
unfolding run
run-IsValid s [] v = v
run-IsValid s (e ∷ es) v = run-IsValid (step s e) es (step-IsValid s e v)
