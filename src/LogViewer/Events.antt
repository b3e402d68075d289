-- ===== src/LogViewer/Events.antt =====
-- frontend/src/components/LogViewer.tsx: the page while requests of the live view are on their way.
-- An event is what may happen between two renderings. The effect of the live view refreshes it when it
-- is chosen, and a timer does while it is; a request that is on its way is not taken back.
use ogs_swg.Prelude.{ℕ, zero, suc, ◌+◌, String, List, [], ◌∷◌, true}
use ogs_swg.Wire.{Payload}
use ogs_swg.Runtime.{Outcome}
use ogs_swg.LogViewer.{
  Page, ViewMode, tail, search, begin_logs, receive_logs, receive_found, receive_blank,
}

-- The page, and the number of its refreshes that wait for an answer.
pub record Live : Type 0 where
  pub page : Page
  pub pending : ℕ

pub data Event : Type 0 where
  timer live history blank : Event
  arrives : Outcome (List String) → Event
  found : ℕ → Outcome Payload → Event

abbrev pub refresh : Page → ℕ → Live
refresh p n = record { page = begin_logs p; pending = n + 1 }

-- The timer is there only in the live view, as are the buttons and the fields that refresh it.
unfoldable pub tick : Live → Live
tick s = elim s.page.view_mode [ tail ↦ refresh s.page s.pending | search ↦ s ]

-- The buttons of the two views; the effect runs where the view has changed to the live one.
unfoldable pub choose_live : Live → Live
choose_live s = elim s.page.view_mode [
  | tail ↦ s
  | search ↦ refresh (record s.page { view_mode = tail }) s.pending
]

abbrev pub choose_history : Live → Live
choose_history s = record s { page = record s.page { view_mode = search } }

-- The answer to one of the refreshes, all of which are forced. Where it turns the view from the
-- history to the live one, the effect of the live view runs.
abbrev pub turned : ViewMode → Page → ℕ → Live
turned tail p n = record { page = p; pending = n }
turned search p n = refresh p n

unfoldable pub arrive : Outcome (List String) → Live → Live
unfolding receive_logs
arrive o s = elim s.pending [
  | zero ↦ s
  | suc n ↦ turned s.page.view_mode (receive_logs true o s.page) n
]

unfoldable pub step : Event → Live → Live
unfolding tick choose_live arrive receive_found receive_blank
step timer s = tick s
step live s = choose_live s
step history s = choose_history s
step blank s = record s { page = receive_blank s.page }
step (arrives o) s = arrive o s
step (found n o) s = record s { page = receive_found n o s.page }

unfoldable pub run : List Event → Live → Live
unfolding step
run [] s = s
run (e ∷ es) s = run es (step e s)
