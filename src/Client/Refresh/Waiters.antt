-- ===== src/Client/Refresh/Waiters.antt =====
-- client.ts: every request that waits for a refresh is sent once more or given up, none is lost.
use ragbag.Common.{
  nullish_or, ℕ, zero, suc, ◌+◌, ◌≡◌, refl, String, Bool, true, false, Option, none, some, List, [],
  ◌∷◌, ◌++◌, if◌then◌else◌, arith, length, length-append, append_assoc, append-nil, ap, sym, ◌∙◌,
}
use ragbag.Common.Dict.{insert}
use ragbag.Common.Text.{◌<+>◌}
use ragbag.Client.Defs.{Client, Reply, ok, set_access_token, refresh_access_token}
use ragbag.Client.Interceptor.{
  Request, Verdict, pass, wait, post_first, post_resume, retry_of, auth_header, with_unlock,
}
use ragbag.Client.Refresh.{
  Loop, Event, arrive, settle, resume, act, after_first, after_settle, with_result, after_resume,
  resume_next, step, run, waited,
}

-- How many handlers an event adds to those that wait.
abbrev joins_by : Verdict → ℕ
joins_by pass = 0
joins_by wait = 1

abbrev pub joins : Loop → Event → ℕ
joins s (arrive q r) = joins_by (post_first q r s.client).1
joins s (settle r) = 0
joins s resume = 0
joins s (act a) = 0

pub length-with_result : (b : Bool) (qs : List Request) → length (with_result b qs) ≡ length qs
length-with_result b [] = refl
length-with_result b (q ∷ qs) = ap suc (length-with_result b qs)

waited-after_first :
    (s : Loop) (q : Request) (r : Client × Verdict)
    → waited (after_first s q r) ≡ waited s + joins_by r.1
waited-after_first s q (c, pass) = omega arith
waited-after_first s q (c, wait) = omega (arith, length-append s.waiting (q ∷ []))

waited-after_settle :
    (s : Loop) (r : Client × Bool)
    → waited (if s.client.refreshing then after_settle s r else s) ≡ waited s + 0
waited-after_settle s (c, b) =
    elim s.client.refreshing
      as (λ w. waited (if w then after_settle s (c, b) else s) ≡ waited s + 0) [
        | true ↦
            omega (
              arith,
              length-append s.ready (with_result b s.waiting),
              length-with_result b s.waiting,
            )
        | false ↦ omega arith
      ]

waited-after_resume :
    (s : Loop) (q : Request) (r : Client × Option Request)
    → waited (after_resume s q r) ≡ suc (waited s)
waited-after_resume s q (c, none) = omega (arith, length-append s.given_up (q ∷ []))
waited-after_resume s q (c, some retry) = omega (arith, length-append s.retried (retry ∷ []))

waited-resume_next :
    (s : Loop) (ready : List (Request × Bool))
    → waited (resume_next (record s { ready = ready }) ready)
      ≡ waited (record s { ready = ready }) + 0
waited-resume_next s [] = omega arith
waited-resume_next s ((q, b) ∷ later) =
    omega (arith, waited-after_resume (record s { ready = later }) q (post_resume q b s.client))

-- Each event adds the handler that it makes wait, if any, and loses none: those that await the refresh,
-- those that are about to go on, the requests sent once more and those given up are all there are.
pub waited-step : (s : Loop) (e : Event) → waited (step s e) ≡ waited s + joins s e
unfolding step
waited-step s (arrive q r) = waited-after_first s q (post_first q r s.client)
waited-step s (settle r) = waited-after_settle s (refresh_access_token r s.client)
waited-step s resume = waited-resume_next s s.ready
waited-step s (act a) = omega arith

abbrev pub resumes : ℕ → List Event
resumes zero = []
resumes (suc n) = resume ∷ resumes n

-- The requests as they are sent once more: to the same addresses, with the unlock header and the new token.
abbrev pub retries : Client → String → List Request → List Request
retries c token [] = []
retries c token (q ∷ qs) =
    record {
      url = q.url;
      headers =
          some (insert auth_header ("Bearer " <+> token) (nullish_or (with_unlock c q.headers) []));
    }
    ∷ retries c token qs

abbrev with_retried : Loop → List Request → Loop
with_retried s rs = record s { ready = []; retried = rs }

-- The client once a refresh has brought the token.
abbrev pub refreshed : String → Client → Client
refreshed token c = record (set_access_token (some token) c) { refreshing = false }

drain_ok :
    (s : Loop) (c : Client) (token : String) (qs : List Request)
    → run
        (record s { client = refreshed token c; ready = with_result true qs })
        (resumes (length qs))
      ≡ record s {
        client = refreshed token c;
        ready = [];
        retried = s.retried ++ retries c token qs;
      }
unfolding run step post_resume retry_of with_unlock set_access_token
drain_ok s c token [] =
    ap (λ rs. with_retried (record s { client = refreshed token c }) rs)
      (sym (append-nil s.retried))
drain_ok s c token (q ∷ qs) =
    let again = retries c token (q ∷ []) in
    drain_ok (record s { retried = s.retried ++ again }) c token qs
    ∙ ap (λ rs. with_retried (record s { client = refreshed token c }) rs)
        (append_assoc s.retried again (retries c token qs))

if_true {ℓ} : {A : Type ℓ} (b : Bool) (x y : A) → b ≡ true → (if b then x else y) ≡ x
if_true true x y h = refl
if_true false x y h = cc

-- The loop once a refresh of these waiting handlers is over, with the client that it leaves.
abbrev settled : Loop → Client → Bool → List (Request × Bool) → Loop
settled s c success earlier = record s {
  client = c;
  waiting = [];
  ready = earlier ++ with_result success s.waiting;
  ended = suc s.ended;
}

step-settle :
    (s : Loop) (r : Reply String) (c : Client) (b : Bool)
    → refresh_access_token r s.client ≡ (c, b)
    → s.client.refreshing ≡ true
    → s.ready ≡ []
    → step s (settle r) ≡ settled s (record c { refreshing = false }) b []
unfolding step
step-settle s r c b outcome busy none_ready =
    if_true s.client.refreshing (after_settle s (refresh_access_token r s.client)) s busy
    ∙ ap (after_settle s) outcome
    ∙ ap (settled s (record c { refreshing = false }) b) none_ready

-- When the refresh succeeds and its handlers go on, with nothing else in between, every request that
-- waited is sent once more, in the order in which they began to wait, with its `Authorization` header set to
-- the new token.
pub settle_ok :
    (s : Loop) (token : String)
    → s.client.refreshing ≡ true
    → s.ready ≡ []
    → run s (settle (ok token) ∷ resumes (length s.waiting)) ≡ record s {
      client = refreshed token s.client;
      waiting = [];
      ready = [];
      retried = s.retried ++ retries s.client token s.waiting;
      ended = suc s.ended;
    }
unfolding run refresh_access_token
settle_ok s token busy none_ready =
    ap (λ u. run u (resumes (length s.waiting)))
      (step-settle s (ok token) (set_access_token (some token) s.client) true refl busy none_ready)
    ∙ drain_ok (settled s s.client true []) s.client token s.waiting

-- What is left of a loop whose handlers have given up.
abbrev pub GivesUp : Loop → List Request → Loop → Type 0
GivesUp s qs s' =
    (s'.ready ≡ [])
    × (s'.waiting ≡ s.waiting)
    × (s'.retried ≡ s.retried)
    × (s'.given_up ≡ s.given_up ++ qs)
    × (s'.client.access_token ≡ none)
