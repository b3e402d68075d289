-- ===== src/LogViewer/Laws.antt =====
-- frontend/src/components/LogViewer.tsx: the search in the history.
pub mod Race
use ogs_swg.Prelude.{
  ℕ, String, [], ◌∷◌, none, some, true, false, ◌≡◌, refl, arith, truthy, trim, concat,
  if◌then◌else◌, ◌++◌, Bool-cases, inl, inr,
}
use ogs_swg.Wire.{Request, get, no_body}
use ogs_swg.Runtime.{World, Server, ok}
use ogs_swg.Encoding.{query}
use ogs_swg.Api.{number_param}
use ogs_swg.Api.Accepted.{request}
use ogs_swg.LogViewer.{Page, search, handle_search, run_search}

abbrev pub search_request : String → ℕ → ℕ → World Page → Request
search_request q limit page w =
    request w.session get
      (concat (
        "/api/logs/search?"
        ∷ query (("q", q) ∷ number_param "limit" (some limit) ++ number_param "page" (some page))
        ∷ []))
      none no_body

run_search-ends :
    (q : String) (limit page : ℕ) (server : Server) (w : World Page)
    → ((run_search q limit page server w).0 ≡ ok tt)
      × ((run_search q limit page server w).1.ui.view_mode ≡ search)
      × ((run_search q limit page server w).1.ui.searching ≡ false)
      × ((run_search q limit page server w).1.sent ≡ search_request q limit page w ∷ w.sent)
unfolding run_search
run_search-ends q limit page server w = (ground arith, ground arith, ground arith, ground arith)

-- Whatever the server answers, a search returns, shows the history and waits no longer than before;
-- it sends one request, with the trimmed text, or none where the text is blank.
pub handle_search-ends :
    (page : ℕ) (s : Page) (server : Server) (w : World Page)
    → let r = handle_search page s server w in
      (r.0 ≡ ok tt)
      × (r.1.ui.view_mode ≡ search)
      × (r.1.ui.searching ≡ (if truthy (trim s.search_query) then false else w.ui.searching))
      × (r.1.sent ≡ (
          if truthy (trim s.search_query)
          then search_request (trim s.search_query) s.search_limit page w ∷ w.sent
          else w.sent))
unfolding handle_search
handle_search-ends page s server w = elim (Bool-cases (truthy (trim s.search_query))) [
  | inl full ↦ rw full (
      let w₁ : World Page = record w { ui = record w.ui { searching = true } } in
      let (returned, mode, idle, sent) =
        run_search-ends (trim s.search_query) s.search_limit page server w₁ in
      (returned, mode, idle, sent))
  | inr blank ↦ rw blank (refl, refl, refl, refl)
]
