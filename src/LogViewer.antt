-- ===== src/LogViewer.antt =====
-- frontend/src/components/LogViewer.tsx: the live view of the log and the search in its history.
-- The scrolling is left out. A round of a timer is a call of `fetch_logs`, which runs to its end where
-- it is made; Events.antt has what may happen between its request and the answer.
pub mod Events
pub mod Laws
mod Tests
use ogs_swg.Prelude.{
  ℕ, ◌+◌, ◌-◌, String, List, [], ◌∷◌, Option, none, some, Bool, true, false, not, ◌||◌, ltb, leb,
  ◌==◌, concat, str_eq, truthy, trim, if◌then◌else◌,
}
use ogs_swg.Wire.{FeatureFlags, Payload, logs, log_page}
use ogs_swg.Runtime.{Outcome, ok, throws, M, ◌>>=◌, ◌>>◌, skip, update, try_catch}
use ogs_swg.Api.Logs.{get_logs, search_logs}
use ogs_swg.Api.Services.{get_features}

pub data ViewMode : Type 0 where
  tail search : ViewMode

pub data LogSource : Type 0 where
  journal file : LogSource

pub record Page : Type 0 where
  pub lines : List String
  pub loading : Bool
  pub query : String
  pub search_query : String
  pub log_source : LogSource
  pub search_limit : ℕ
  pub searching : Bool
  pub view_mode : ViewMode
  pub search_page : ℕ
  pub search_has_more : Bool
  pub tail_limit : ℕ

abbrev pub start : Page
start = record {
  lines = [];
  loading = true;
  query = "";
  search_query = "";
  log_source = journal;
  search_limit = 200;
  searching = false;
  view_mode = tail;
  search_page = 1;
  search_has_more = false;
  tail_limit = 50;
}

-- `x || undefined`
abbrev or_undefined : String → Option String
or_undefined s = if truthy s then some s else none

abbrev tail_if : Bool → Page → Page
tail_if force_tail p = if force_tail then record p { view_mode = tail } else p

-- The two halves of `fetchLogs`: its first setter, and those that follow the answer. Other events may
-- fall between them (Events.antt).
abbrev pub begin_logs : Page → Page
begin_logs p = record p { loading = true }

abbrev pub shown_logs : Outcome (List String) → List String
shown_logs (ok found) = found
shown_logs (throws err) = concat ("Error loading logs: " ∷ err.message ∷ []) ∷ []

unfoldable pub receive_logs : Bool → Outcome (List String) → Page → Page
receive_logs force_tail o p = record (tail_if force_tail (record p { lines = shown_logs o })) {
  loading = false;
}

-- `fetchLogs`
unfoldable pub fetch_logs : Bool → Page → M Page (Unit {0})
unfolding get_logs receive_logs
fetch_logs force_tail s = do
  update begin_logs
  try_catch
      (do
        found ← get_logs (or_undefined s.query) (some s.tail_limit)
        update (receive_logs force_tail (ok found)))
      (λ err. update (receive_logs force_tail (throws err)))

-- The source of the log, where the text is one of the two known ones.
abbrev receive_source : Option String → Page → Page
receive_source none p = p
receive_source (some t) p =
    if str_eq t "journal"
    then record p { log_source = journal }
    else if str_eq t "file"
    then record p { log_source = file }
    else p

-- The effect that runs when the page is opened.
unfoldable pub load_source : M Page (Unit {0})
unfolding get_features
load_source =
    try_catch (do flags ← get_features; update (receive_source flags.log_source)) (λ err. skip)

-- The effect of the live view, which runs when it is chosen or one of its settings changed.
unfoldable pub tail_effect : Page → M Page (Unit {0})
unfolding fetch_logs
tail_effect s = elim s.view_mode [ tail ↦ fetch_logs true s | search ↦ skip ]

-- `res.logs || []`, `res.page || page` and `!!res.has_more`
abbrev pub found_lines : Payload → List String
found_lines (logs l) = l
found_lines (log_page (some l) page more) = l
found_lines _ = []

abbrev pub found_page : ℕ → Payload → ℕ
found_page page (log_page l (some n) more) = if n == 0 then page else n
found_page page _ = page

abbrev pub found_more : Payload → Bool
found_more (log_page l page (some b)) = b
found_more _ = false

-- The setters that follow the answer of a search, and those for a blank text.
unfoldable pub receive_found : ℕ → Outcome Payload → Page → Page
receive_found page (ok res) p = record p {
  lines = found_lines res;
  view_mode = search;
  search_page = found_page page res;
  search_has_more = found_more res;
}
receive_found page (throws err) p = record p {
  lines = concat ("Search failed: " ∷ err.message ∷ []) ∷ [];
  view_mode = search;
}

unfoldable pub receive_blank : Page → Page
receive_blank p = record p {
  lines = "Ingresa un término para buscar" ∷ [];
  view_mode = search;
  search_has_more = false;
  search_page = 1;
}

-- The `try` block of `handleSearch` with its handlers.
unfoldable pub run_search : String → ℕ → ℕ → M Page (Unit {0})
unfolding search_logs receive_found
run_search q limit page = do
  try_catch (do res ← search_logs q (some limit) (some page); update (receive_found page (ok res)))
      (λ err. update (receive_found page (throws err)))
  update (λ p. record p { searching = false })

unfoldable pub handle_search : ℕ → Page → M Page (Unit {0})
unfolding run_search receive_blank
handle_search page s = if not (truthy (trim s.search_query)) then update receive_blank else (do
  update (λ p. record p { searching = true })
  run_search (trim s.search_query) s.search_limit page)

-- The two buttons beside the number of the page; a disabled button does nothing.
unfoldable pub click_previous : Page → M Page (Unit {0})
unfolding handle_search
click_previous s =
    if leb s.search_page 1 || s.searching
    then skip
    else handle_search (if ltb 1 (s.search_page - 1) then s.search_page - 1 else 1) s

unfoldable pub click_next : Page → M Page (Unit {0})
unfolding handle_search
click_next s =
    if not s.search_has_more || s.searching then skip else handle_search (s.search_page + 1) s

-- The fields of the search, which start it again at its first page.
unfoldable pub set_search_query : String → Page → Page
set_search_query q p = record p { search_query = q; search_page = 1 }

unfoldable pub set_search_limit : ℕ → Page → Page
set_search_limit n p = record p { search_limit = n; search_page = 1 }
