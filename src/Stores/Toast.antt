-- ===== src/Stores/Toast.antt =====
-- ui/v1/src/lib/stores/toast.svelte.ts: short confirmations, three at most.
--
-- A toast's action is a callback, which the store only keeps: a parameter. The timers that are set are
-- recorded with the id that they will dismiss.
use ragbag.Common.{
  ℕ, zero, suc, ◌-◌, ◌≡◌, ◌≢◌, ◌≤◌, ◌<◌, refl, String, Bool, not, Option, List, [], ◌∷◌, ◌++◌,
  if◌then◌else◌, length, drop, keep, length-append, length-drop, arith, All, ◌==◌, ltb, Bool-cases,
  inl, inr, ==_iff,
}

pub record Toast (Action : Type 0) : Type 0 where
  pub id : ℕ
  pub text : String
  pub action : Option Action

pub record Toasts (Action : Type 0) : Type 0 where
  pub list : List (Toast Action)
  pub next_id : ℕ
  pub timers : List (ℕ × ℕ)

module _ {Action : Type 0} where
  abbrev pub toasts : Toasts Action
  toasts = record { list = []; next_id = 1; timers = [] }

  -- `list.slice(-2)`
  abbrev pub last_two : List (Toast Action) → List (Toast Action)
  last_two ts = drop (length ts - 2) ts

  unfoldable pub show_toast : String → Option Action → ℕ → Toasts Action → Toasts Action
  show_toast text action duration_ms s = record {
    list = last_two s.list ++ record { id = s.next_id; text = text; action = action } ∷ [];
    next_id = suc s.next_id;
    timers = if ltb 0 duration_ms then s.timers ++ (s.next_id, duration_ms) ∷ [] else s.timers;
  }

  unfoldable pub dismiss_toast : ℕ → Toasts Action → Toasts Action
  dismiss_toast id s = record s { list = keep (λ t. not (t.id == id)) s.list }

  -- The ids rise along the list, from `low` on and below `high`.
  abbrev pub IsRising : ℕ → ℕ → List (Toast Action) → Type 0
  IsRising low high [] = low ≤ high
  IsRising low high (t ∷ ts) = (low ≤ t.id) × IsRising (suc t.id) high ts

  -- Three toasts at most, with different ids that have all been given out.
  pub record IsValid (s : Toasts Action) : Type 0 where
    pub few : length s.list ≤ 3
    pub rising : IsRising 0 s.next_id s.list

  IsRising-lower :
      (low low' high : ℕ) (ts : List (Toast Action))
      → low' ≤ low
      → IsRising low high ts
      → IsRising low' high ts
  IsRising-lower low low' high [] h r = omega arith
  IsRising-lower low low' high (t ∷ ts) h (a, r) = (omega arith, r)

  IsRising-drop :
      (n low high : ℕ) (ts : List (Toast Action))
      → IsRising low high ts
      → IsRising low high (drop n ts)
  IsRising-drop zero low high ts r = r
  IsRising-drop (suc n) low high [] r = r
  IsRising-drop (suc n) low high (t ∷ ts) (a, r) =
      IsRising-drop n low high ts (IsRising-lower (suc t.id) low high ts (omega arith) r)

  IsRising-append :
      (low high : ℕ) (ts : List (Toast Action)) (t : Toast Action)
      → t.id ≡ high
      → IsRising low high ts
      → IsRising low (suc high) (ts ++ t ∷ [])
  IsRising-append low high [] t e r = (omega arith, omega arith)
  IsRising-append low high (u ∷ ts) t e (a, r) = (a, IsRising-append (suc u.id) high ts t e r)

  IsRising-keep :
      (p : Toast Action → Bool) (low high : ℕ) (ts : List (Toast Action))
      → IsRising low high ts
      → IsRising low high (keep p ts)
  IsRising-keep p low high [] r = r
  IsRising-keep p low high (t ∷ ts) (a, r) = elim (Bool-cases (p t)) [
    | inl yes_p ↦ rw yes_p (a, IsRising-keep p (suc t.id) high ts r)
    | inr no_p ↦
        rw no_p
          (IsRising-keep p low high ts (IsRising-lower (suc t.id) low high ts (omega arith) r))
  ]

  length-keep :
      (p : Toast Action → Bool) (ts : List (Toast Action)) → length (keep p ts) ≤ length ts
  length-keep p [] = omega arith
  length-keep p (t ∷ ts) = ground (arith, length-keep p ts)

  -- Showing a toast keeps the store valid: three toasts at most, with different ids, the new one's included.
  pub show_toast-IsValid :
      (text : String) (action : Option Action) (duration_ms : ℕ) (s : Toasts Action)
      → IsValid s
      → IsValid (show_toast text action duration_ms s)
  unfolding show_toast
  show_toast-IsValid text action duration_ms s v = record {
    few = omega (
      arith,
      length-append (last_two s.list)
          (record { id = s.next_id; text = text; action = action } ∷ []),
      length-drop (length s.list - 2) s.list,
    );
    rising =
        IsRising-append 0 s.next_id (last_two s.list) _ refl
          (IsRising-drop (length s.list - 2) 0 s.next_id s.list v.rising);
  }

  absent_below :
      (low high : ℕ) (id : ℕ) (ts : List (Toast Action))
      → id < low
      → IsRising low high ts
      → All (λ t. t.id ≢ id) ts
  absent_below low high id [] h r = tt
  absent_below low high id (t ∷ ts) h (a, r) =
      (omega arith, absent_below (suc t.id) high id ts (omega arith) r)

  absent-keep :
      (id : ℕ) (ts : List (Toast Action)) → All (λ t. t.id ≢ id) (keep (λ t. not (t.id == id)) ts)
  absent-keep id [] = tt
  absent-keep id (t ∷ ts) = ground (arith, absent-keep id ts, ==_iff t.id id)

  -- Dismissing keeps the store valid, and no toast of that id is left.
  pub dismiss_toast-IsValid :
      (id : ℕ) (s : Toasts Action)
      → IsValid s
      → IsValid (dismiss_toast id s) × All (λ t. t.id ≢ id) (dismiss_toast id s).list
  unfolding dismiss_toast
  dismiss_toast-IsValid id s v = (
    record {
      few = omega (arith, length-keep (λ t. not (t.id == id)) s.list);
      rising = IsRising-keep (λ t. not (t.id == id)) 0 s.next_id s.list v.rising;
    },
    absent-keep id s.list,
  )
