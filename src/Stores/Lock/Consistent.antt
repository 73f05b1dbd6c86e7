-- ===== src/Stores/Lock/Consistent.antt =====
-- lock.svelte.ts: the state, the token, the requests and the storage agree at all times.
use ragbag.Common.{
  ℕ, ◌-◌, ◌≡◌, refl, String, Bool, true, false, ◌||◌, ◌&&◌, not, Option, none, some, if◌then◌else◌,
  truthy, ltb, leb, arith, ◌⊎◌, inl, inr, sym,
}
use ragbag.Client.{Reply, ok, failed}
use ragbag.Stores.Lock.{
  Slot, empty, saved, corrupt, Grant, Lock, token_of, is_granted, apply, initial, resume, load,
  lock, keep_unlocked, renewed, Event, unlocks, locks, resets, activity, renewal, tick, step,
  renew_below_ms,
}

abbrev pub HasToken : Reply Grant → Type 0
HasToken failed = Unit
HasToken (ok g) = truthy (some g.token) ≡ true

abbrev pub GivesToken : Event → Type 0
GivesToken (unlocks r) = HasToken r
GivesToken (renewal r) = HasToken r
GivesToken _ = Unit

abbrev pub saved_slot : Option String → ℕ → Slot
saved_slot none e = empty
saved_slot (some t) e = saved t e

-- The state that the pages see, the token, the header of the requests and the storage agree; a text in
-- the storage that is no JSON is left there while locked.
pub record IsConsistent (s : Lock) : Type 0 where
  pub shown : s.unlocked ≡ truthy s.token
  pub sent : s.header ≡ s.token
  pub ends : s.token ≡ none → s.expires_at ≡ 0
  pub kept :
      s.storage_available ≡ true
      → (s.slot ≡ saved_slot s.token s.expires_at) ⊎ ((s.slot ≡ corrupt) × (s.token ≡ none))

apply-IsConsistent :
    (next : Option Grant) (s : Lock)
    → is_granted next ≡ truthy (token_of next)
    → IsConsistent (apply next s)
unfolding apply
apply-IsConsistent none s h = record {
  shown = refl;
  sent = refl;
  ends = λ h. refl;
  kept = λ a. inl (ground arith);
}
apply-IsConsistent (some g) s h = record {
  shown = h;
  sent = refl;
  ends = λ e. cc;
  kept = λ a. inl (ground arith);
}

renewing-IsConsistent :
    (s : Lock) (b : Bool) → IsConsistent s → IsConsistent (record s { renewing = b })
renewing-IsConsistent s b v = record {
  shown = v.shown;
  sent = v.sent;
  ends = v.ends;
  kept = v.kept;
}

if-IsConsistent :
    (b : Bool) (s t : Lock)
    → (b ≡ true → IsConsistent s)
    → (b ≡ false → IsConsistent t)
    → IsConsistent (if b then s else t)
if-IsConsistent true s t h k = h refl
if-IsConsistent false s t h k = k refl

locked-IsConsistent :
    (slot : Slot) (available : Bool)
    → (slot ≡ empty) ⊎ ((slot ≡ corrupt) × (◌≡◌ {A = Option String} none none))
    → IsConsistent (initial slot available)
locked-IsConsistent slot available h = record {
  shown = refl;
  sent = refl;
  ends = λ e. refl;
  kept = λ a. h;
}

resumed-IsConsistent :
    (now : ℕ) (t : String) (e : ℕ)
    → IsConsistent (resume now (saved t e) (initial (saved t e) true))
resumed-IsConsistent now t e =
    if-IsConsistent (truthy (some t) && ltb now e)
      (apply (some (record { token = t; expires_at = e })) (initial (saved t e) true))
      (initial empty true)
      (λ h.
        apply-IsConsistent (some (record { token = t; expires_at = e })) (initial (saved t e) true)
          (ground arith))
      (λ h. locked-IsConsistent empty true (inl refl))

-- At the start of the client the store is consistent, whatever the storage holds.
pub load-IsConsistent :
    (now : ℕ) (slot : Slot) (available : Bool) → IsConsistent (load now slot available)
unfolding load
load-IsConsistent now slot false = record {
  shown = refl;
  sent = refl;
  ends = λ h. refl;
  kept = λ h. cc;
}
load-IsConsistent now empty true = locked-IsConsistent empty true (inl refl)
load-IsConsistent now corrupt true = locked-IsConsistent corrupt true (inr (refl, refl))
load-IsConsistent now (saved t e) true = resumed-IsConsistent now t e

renewed-IsConsistent :
    (s : Lock) (r : Reply Grant) → HasToken r → IsConsistent s → IsConsistent (renewed r s)
unfolding renewed
renewed-IsConsistent s failed g v =
    renewing-IsConsistent (apply none s) false (apply-IsConsistent none s refl)
renewed-IsConsistent s (ok r) g v =
    if-IsConsistent (truthy s.token) (record (apply (some r) s) { renewing = false })
      (record s { renewing = false })
      (λ h. renewing-IsConsistent (apply (some r) s) false (apply-IsConsistent (some r) s (sym g)))
      (λ h. renewing-IsConsistent s false v)

pair-IsConsistent :
    (b : Bool) (p q : Lock × Bool)
    → IsConsistent p.0
    → IsConsistent q.0
    → IsConsistent (if b then p else q).0
pair-IsConsistent true p q h k = h
pair-IsConsistent false p q h k = k

keep_unlocked-IsConsistent :
    (s : Lock) (now : ℕ) → IsConsistent s → IsConsistent (keep_unlocked now s).0
unfolding keep_unlocked
keep_unlocked-IsConsistent s now v =
    pair-IsConsistent (not (truthy s.token) || s.renewing) (s, false) _ v
      (pair-IsConsistent (leb s.expires_at now) (lock s, false) _ (apply-IsConsistent none s refl)
        (pair-IsConsistent (ltb renew_below_ms (s.expires_at - now)) (s, false)
          (record s { renewing = true }, true) v (renewing-IsConsistent s true v)))

-- Every event keeps the store consistent, if the server gives no empty token.
pub step-IsConsistent :
    (s : Lock) (e : Event) → GivesToken e → IsConsistent s → IsConsistent (step s e)
unfolding step
step-IsConsistent s (unlocks failed) g v = v
step-IsConsistent s (unlocks (ok r)) g v = apply-IsConsistent (some r) s (sym g)
step-IsConsistent s locks g v = apply-IsConsistent none s refl
step-IsConsistent s resets g v = apply-IsConsistent none s refl
step-IsConsistent s (activity now) g v = keep_unlocked-IsConsistent s now v
step-IsConsistent s (renewal r) g v =
    if-IsConsistent s.renewing (renewed r s) s (λ h. renewed-IsConsistent s r g v) (λ h. v)
step-IsConsistent s (tick now) g v =
    if-IsConsistent (truthy s.token && leb s.expires_at now) (lock s) s
      (λ h. apply-IsConsistent none s refl) (λ h. v)
