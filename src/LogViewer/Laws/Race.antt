-- ===== src/LogViewer/Laws/Race.antt =====
-- frontend/src/components/LogViewer.tsx: the history while a refresh of the live view is on its way.
use ogs_swg.Prelude.{
  ℕ, zero, suc, String, List, [], ◌∷◌, Bool, true, false, ◌≡◌, refl, arith, all, ◌==◌,
  if◌then◌else◌,
}
use ogs_swg.Runtime.{Outcome}
use ogs_swg.LogViewer.{tail, search, shown_logs}
use ogs_swg.LogViewer.Events.{Live, Event, timer, live, history, blank, arrives, found, step, run}

-- The events but the button of the live view and the answer to a refresh.
abbrev pub is_other : Event → Bool
is_other live = false
is_other (arrives o) = false
is_other _ = true

-- The page shows the history, and so many refreshes are on their way.
abbrev IsHistory : ℕ → Live → Type 0
IsHistory n s = (s.page.view_mode ≡ search) × (s.pending ≡ n)

step-IsHistory :
    (e : Event) (n : ℕ) (s : Live) → is_other e ≡ true → IsHistory n s → IsHistory n (step e s)
unfolding step
step-IsHistory timer n s ok (shown, waits) = rw shown (refl, waits)
step-IsHistory live n s ok h = cc ok
step-IsHistory history n s ok (shown, waits) = (refl, waits)
step-IsHistory blank n s ok (shown, waits) = (refl, waits)
step-IsHistory (arrives o) n s ok h = cc ok
step-IsHistory (found k (Outcome.ok res)) n s ok (shown, waits) = (refl, waits)
step-IsHistory (found k (Outcome.throws err)) n s ok (shown, waits) = (refl, waits)

run-IsHistory :
    (es : List Event) (n : ℕ) (s : Live)
    → all is_other es ≡ true
    → IsHistory n s
    → IsHistory n (run es s)
unfolding run
run-IsHistory [] n s ok h = h
run-IsHistory (e ∷ es) n s ok h =
    run-IsHistory es n (step e s) (ground arith) (step-IsHistory e n s (ground arith) h)

arrive-history :
    (n : ℕ) (o : Outcome (List String)) (s : Live)
    → IsHistory n s
    → ((step (arrives o) s).page.view_mode ≡ (if n == 0 then search else tail))
      × ((step (arrives o) s).page.lines ≡ (if n == 0 then s.page.lines else shown_logs o))
unfolding step
arrive-history zero o s (shown, waits) = rw waits (shown, refl)
arrive-history (suc n) o s (shown, waits) = rw (waits, shown) (ground arith, ground arith)

-- While the page shows the history, and the button of the live view is not pressed, it goes on to show
-- it until a refresh that was on its way is answered, and no other refresh begins. The answer to such
-- a refresh, whatever it is and whatever was found since, puts the page in the live view and replaces
-- the lines; if none was on its way, the view and the lines stay.
pub run-history :
    (es : List Event) (o : Outcome (List String)) (s : Live)
    → s.page.view_mode ≡ search
    → all is_other es ≡ true
    → let s₁ = run es s in
      let s₂ = step (arrives o) s₁ in
      (s₁.page.view_mode ≡ search)
      × (s₁.pending ≡ s.pending)
      × (s₂.page.view_mode ≡ (if s.pending == 0 then search else tail))
      × (s₂.page.lines ≡ (if s.pending == 0 then s₁.page.lines else shown_logs o))
run-history es o s shown ok =
    let h = run-IsHistory es s.pending s ok (shown, refl) in
    let (view, lines) = arrive-history s.pending o (run es s) h in (h.0, h.1, view, lines)
