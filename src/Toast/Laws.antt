-- ===== src/Toast/Laws.antt =====
-- frontend/src/context/ToastContext.tsx: the messages on the screen and their timers.
use ogs_swg.Prelude.{
  ℕ, ◌<◌, String, List, map, [], ◌∷◌, Option, ◌≡◌, refl, All, All-append, has, has-append, arith,
  filter, not, str_eq, Bool, true, false, eq_iff, eq_refl, ltb, Bool-cases, inl, inr,
}
use ogs_swg.Toast.{
  Toast, ToastType, Toasts, start, resolve_duration, erase_first, run, show_toast, Action, show,
  close, timeout, act,
}

-- A message with a positive duration has a timer.
abbrev pub IsTimed : Toasts → Type 0
IsTimed s = All (λ t. 0 < t.duration → has s.timers t.id ≡ true) s.toasts

All-weaken :
    (ids ids' : List String) (ts : List Toast)
    → ((a : String) → has ids a ≡ true → has ids' a ≡ true)
    → All (λ t. 0 < t.duration → has ids t.id ≡ true) ts
    → All (λ t. 0 < t.duration → has ids' t.id ≡ true) ts
All-weaken ids ids' [] sub h = tt
All-weaken ids ids' (t ∷ ts) sub (p, h) = (λ pos. sub t.id (p pos), All-weaken ids ids' ts sub h)

All-filter :
    (P : Toast → Type 0) (p : Toast → Bool) (ts : List Toast) → All P ts → All P (filter p ts)
All-filter P p [] h = tt
All-filter P p (t ∷ ts) (q, h) = elim (Bool-cases (p t)) [
  | inl keep ↦ rw keep (q, All-filter P p ts h)
  | inr drop ↦ rw drop (All-filter P p ts h)
]

has-erase_first :
    (a b : String) (ids : List String)
    → str_eq b a ≡ false
    → has ids b ≡ true
    → has (erase_first a ids) b ≡ true
has-erase_first a b [] n h = h
has-erase_first a b (x ∷ ids) n h =
    ground (arith, has-erase_first a b ids n, eq_iff x a, eq_iff x b, eq_iff b a)

-- When a timer goes off, the messages that it does not name keep theirs.
All-fired :
    (id : String) (ids : List String) (ts : List Toast)
    → All (λ t. 0 < t.duration → has ids t.id ≡ true) ts
    → All
        (λ t. 0 < t.duration → has (erase_first id ids) t.id ≡ true)
        (filter (λ t. not (str_eq t.id id)) ts)
All-fired id ids [] h = tt
All-fired id ids (t ∷ ts) (q, h) = elim (Bool-cases (str_eq t.id id)) [
  | inl same ↦ rw same (All-fired id ids ts h)
  | inr other ↦ rw other (λ pos. has-erase_first id t.id ids other (q pos), All-fired id ids ts h)
]

show_toast-IsTimed :
    (id message : String) (type : ToastType) (duration : Option ℕ) (s : Toasts)
    → IsTimed s
    → IsTimed (show_toast id message type duration s)
unfolding show_toast
show_toast-IsTimed id message type duration s h =
    let d : ℕ = resolve_duration type duration in
    elim (Bool-cases (ltb 0 d)) [
      | inl pos ↦ rw pos (
          All-append _ s.toasts _
            (All-weaken _ _ s.toasts (λ a e. ground (arith, has-append s.timers (id ∷ []) a)) h)
            ((λ _. ground (arith, has-append s.timers (id ∷ []) id, eq_refl id)), tt))
      | inr never ↦ rw never (All-append _ s.toasts _ h ((λ p. ground arith), tt))
    ]

-- Every action keeps a timer pending for each message with a positive duration.
pub act-IsTimed : (a : Action) (s : Toasts) → IsTimed s → IsTimed (act a s)
unfolding act
act-IsTimed (show id message type duration) s h = show_toast-IsTimed id message type duration s h
act-IsTimed (close id) s h = All-filter _ _ s.toasts h
act-IsTimed (timeout id) s h = elim (Bool-cases (has s.timers id)) [
  | inl pending ↦ rw pending (All-fired id s.timers s.toasts h)
  | inr late ↦ rw late h
]

run-IsTimed : (as' : List Action) (s : Toasts) → IsTimed s → IsTimed (run as' s)
run-IsTimed [] s h = h
run-IsTimed (a ∷ rest) s h = run-IsTimed rest (act a s) (act-IsTimed a s h)

run-timeouts :
    (ids : List String) (s : Toasts) → s.timers ≡ ids → (run (map timeout ids) s).timers ≡ []
unfolding act
run-timeouts [] s e = e
run-timeouts (id ∷ ids) s e = run-timeouts ids (act (timeout id) s) (ground (arith, eq_refl id))

All-untimed :
    (ts : List Toast)
    → All (λ t. 0 < t.duration → has [] t.id ≡ true) ts
    → All (λ t. t.duration ≡ 0) ts
All-untimed [] h = tt
All-untimed (t ∷ ts) (q, h) = (ground arith, All-untimed ts h)

-- Whatever was shown and closed before, once the pending timers have gone off only messages that
-- were asked to stay, with duration 0, are left.
pub run-timeouts-stay :
    (history : List Action)
    → All
        (λ t. t.duration ≡ 0)
        (run (map timeout (run history start).timers) (run history start)).toasts
run-timeouts-stay history =
    let s : Toasts = run history start in
    let e : Toasts = run (map timeout s.timers) s in
    All-untimed e.toasts (
      rw (run-timeouts s.timers s refl) at
        (run-IsTimed (map timeout s.timers) s (run-IsTimed history start tt)))
