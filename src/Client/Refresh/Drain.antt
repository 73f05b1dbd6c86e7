-- ===== src/Client/Refresh/Drain.antt =====
-- client.ts: the refresh that ends lets every request go on.
use ragbag.Common.{
  Bool-cases, inl, inr, ◌+◌, ◌≡◌, refl, String, Bool, false, Option, none, some, List, [], ◌∷◌,
  if◌then◌else◌, arith, length, length-append, ap, ◌∙◌, subst,
}
use ragbag.Client.Defs.{Client, Reply, refresh_access_token}
use ragbag.Client.Interceptor.{Request, post_resume, post_resume-refreshing}
use ragbag.Client.Refresh.{
  Loop, settle, resume, IsValid, after_settle, with_result, after_resume, resume_next, step, run,
  waited,
}
use ragbag.Client.Refresh.Waiters.{length-with_result, resumes, waited-step}

-- No handler waits, in any stage.
pub record IsDrained (s : Loop) : Type 0 where
  pub no_refresh : s.client.refreshing ≡ false
  pub none_waiting : s.waiting ≡ []
  pub none_ready : s.ready ≡ []

after_resume-rests :
    (s : Loop) (q : Request) (r : Client × Option Request)
    → r.0.refreshing ≡ s.client.refreshing
    → ((after_resume s q r).client.refreshing ≡ s.client.refreshing)
      × ((after_resume s q r).waiting ≡ s.waiting)
      × ((after_resume s q r).ready ≡ s.ready)
after_resume-rests s q (c, none) h = (h, refl, refl)
after_resume-rests s q (c, some retry) h = (h, refl, refl)

step-resume :
    (s : Loop) (q : Request) (b : Bool) (later : List (Request × Bool))
    → s.ready ≡ (q, b) ∷ later
    → step s resume ≡ after_resume (record s { ready = later }) q (post_resume q b s.client)
unfolding step
step-resume s q b later h = ap (resume_next s) h

resume-rests :
    (s : Loop) (q : Request) (b : Bool) (later : List (Request × Bool))
    → s.ready ≡ (q, b) ∷ later
    → let s' = step s resume in
      (s'.client.refreshing ≡ s.client.refreshing)
      × (s'.waiting ≡ s.waiting)
      × (s'.ready ≡ later)
      × (waited s' ≡ waited s)
resume-rests s q b later h =
    let e = step-resume s q b later h in
    let (a, c, d) =
      after_resume-rests (record s { ready = later }) q (post_resume q b s.client)
        (post_resume-refreshing q b s.client) in
    (
      ap (λ u. u.client.refreshing) e ∙ a,
      ap (λ u. u.waiting) e ∙ c,
      ap (λ u. u.ready) e ∙ d,
      omega (arith, waited-step s resume),
    )

-- Handlers that are ready go on, one after the other.
drain :
    (later : List (Request × Bool)) (s : Loop)
    → s.ready ≡ later
    → let s' = run s (resumes (length later)) in
      (s'.client.refreshing ≡ s.client.refreshing)
      × (s'.waiting ≡ s.waiting)
      × (s'.ready ≡ [])
      × (waited s' ≡ waited s)
unfolding run
drain [] s h = (refl, refl, h, refl)
drain ((q, b) ∷ later) s h =
    let (a, c, d, e) = resume-rests s q b later h in
    let (a', c', d', e') = drain later (step s resume) d in (a' ∙ a, c' ∙ c, d', e' ∙ e)

settled :
    (s : Loop) (r : Client × Bool)
    → IsValid s
    → let s' = if s.client.refreshing then after_settle s r else s in
      (s'.client.refreshing ≡ false)
      × (s'.waiting ≡ [])
      × (length s'.ready ≡ length s.ready + length s.waiting)
settled s (c, b) v = elim (Bool-cases s.client.refreshing) [
  | inl busy ↦ rw busy (
    refl,
    refl,
    length-append s.ready (with_result b s.waiting)
        ∙ ap (λ n. length s.ready + n) (length-with_result b s.waiting),
  )
  | inr idle ↦ rw idle (refl, v.awaited idle, omega (arith, ap length (v.awaited idle)))
]

settle-rests :
    (s : Loop) (r : Reply String)
    → IsValid s
    → let s' = step s (settle r) in
      (s'.client.refreshing ≡ false)
      × (s'.waiting ≡ [])
      × (length s'.ready ≡ length s.ready + length s.waiting)
unfolding step
settle-rests s r v = settled s (refresh_access_token r s.client) v

-- From every valid state: when the refresh under way ends, however it ends, and as many handlers go on as there
-- are, no refresh is under way, no handler is left, and each one that waited has sent its request once
-- more or given up.
pub drained :
    (s : Loop) (r : Reply String)
    → IsValid s
    → let s' = run s (settle r ∷ resumes (length s.ready + length s.waiting)) in
      IsDrained s' × (length s'.retried + length s'.given_up ≡ waited s)
unfolding run
drained s r v =
    let (idle, none_left, count) = settle-rests s r v in
    let s1 = step s (settle r) in
    subst
      (λ n.
        IsDrained (run s1 (resumes n))
        × (length (run s1 (resumes n)).retried + length (run s1 (resumes n)).given_up ≡ waited s))
      count
      (let (a, c, d, e) = drain s1.ready s1 refl in
        (
          record { no_refresh = a ∙ idle; none_waiting = c ∙ none_left; none_ready = d },
          omega (arith, e, waited-step s (settle r), ap length d, ap length (c ∙ none_left)),
        ))
