-- ===== src/LogViewer/Tests.antt =====
-- An example for the search in the log (frontend/src/components/LogViewer.tsx).
use ogs_swg.Prelude.{◌∷◌, [], List, none, some, refl, ◌≡◌, true, false, trim}
use ogs_swg.Wire.{log_page}
use ogs_swg.Runtime.{Server, Outcome, ok}
use ogs_swg.Api.Fixtures.{constant, world}
use ogs_swg.LogViewer.{Page, start, search, handle_search, tail, begin_logs}
use ogs_swg.LogViewer.Events.{Live, Event, choose_history, step, run}
use ogs_swg.LogViewer.Laws.{search_request, handle_search-ends}
use ogs_swg.LogViewer.Laws.Race.{run-history}

abbrev asking : Page
asking = record start { search_query = " error " }

abbrev finding : Server
finding = constant 200 (log_page (some ("error: x" ∷ [])) (some 1) (some true))

handle_search-ends_example :
    let r = handle_search 1 asking finding (world asking) in
    (r.0 ≡ ok tt)
    × (r.1.ui.view_mode ≡ search)
    × (r.1.ui.searching ≡ false)
    × (r.1.sent ≡ search_request "error" 200 1 (world asking) ∷ [])
unfolding trim
handle_search-ends_example = handle_search-ends 1 asking finding (world asking)

-- A refresh begins, the history is chosen, and a search finds a line before the refresh is answered.
abbrev opened : Live
opened = choose_history (record { page = begin_logs start; pending = 1 })

abbrev events : List Event
events =
    Event.found 1 (Outcome.ok (log_page (some ("error: x" ∷ [])) (some 1) none)) ∷ Event.timer ∷ []

run-history_example :
    let s₁ = run events opened in
    let s₂ = step (Event.arrives (Outcome.ok ("live" ∷ []))) s₁ in
    (s₁.page.view_mode ≡ search)
    × (s₁.pending ≡ 1)
    × (s₂.page.view_mode ≡ tail)
    × (s₂.page.lines ≡ "live" ∷ [])
run-history_example = run-history events (Outcome.ok ("live" ∷ [])) opened refl refl

found_test : (run events opened).page.lines ≡ "error: x" ∷ []
unfolding run
found_test = refl
