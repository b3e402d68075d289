-- ===== src/Users/Usage/Laws.antt =====
-- frontend/src/components/UserManagement.tsx, `fetchUsage`: what is asked, and how it ends.
use ogs_swg.Prelude.{
  ℕ, String, [], ◌∷◌, ◌++◌, Option, none, some, false, true, concat, ◌≡◌, refl, ◌⊎◌, inl, inr,
  Option-cases,
}
use ogs_swg.Wire.{get, no_body}
use ogs_swg.Runtime.{Server, World, ok, Notice, error, show_exception}
use ogs_swg.Encoding.{query}
use ogs_swg.Api.{any_json, text_param, number_param}
use ogs_swg.Api.Accepted.{request}
use ogs_swg.Api.Settled.{Settled, Settled-bind, call-Settled, IsPure-parse, Outcome-cases}
use ogs_swg.Api.Decoded.{payload_json}
use ogs_swg.Api.Logs.{get_report_summary}
use ogs_swg.Users.Usage.{Report, fetch_usage, bound_text, limit_param}

abbrev pub report_url : (String → Option ℕ) → ℕ → Report → String
report_url seconds bytes s = concat (
    "/api/report/summary?"
    ∷ query (
        text_param "start" (some (bound_text seconds s.usage_start))
        ++ (text_param "end" (some (bound_text seconds s.usage_end))
            ++ number_param "limit_bytes" (limit_param bytes)))
    ∷ [])

module _ (server : Server) (w : World Report) (seconds : String → Option ℕ) (bytes : ℕ) where
  summary_get :
      Settled
        (get_report_summary
          (some (bound_text seconds w.ui.usage_start))
          (some (bound_text seconds w.ui.usage_end))
          (limit_param bytes))
        server
        (record w { ui = record w.ui { loading_usage = true } })
        (request w.session get (report_url seconds bytes w.ui) none no_body)
  unfolding get_report_summary
  summary_get =
      Settled-bind server (record w { ui = record w.ui { loading_usage = true } }) _ _ _
        (IsPure-parse (λ res. any_json res.json))
        (call-Settled server (record w { ui = record w.ui { loading_usage = true } }) get
          (report_url seconds bytes w.ui) none no_body "Failed to fetch report summary")

  -- Whatever the server answers, the report is asked for once, with the bounds and the limit that
  -- the fields say, and the page does not wait any longer. Either no message is shown, or one is and
  -- the shown report stays.
  pub fetch_usage-ends :
      let r = fetch_usage seconds bytes w.ui server w in
      (r.0 ≡ ok tt)
      × (r.1.ui.loading_usage ≡ false)
      × (r.1.sent ≡ request w.session get (report_url seconds bytes w.ui) none no_body ∷ w.sent)
      × ((r.1.notices ≡ w.notices)
          ⊎ ((n : Notice) × (r.1.notices ≡ n ∷ w.notices) × (r.1.ui.usage_data ≡ w.ui.usage_data)))
  unfolding fetch_usage
  fetch_usage-ends =
      let s = summary_get in
      elim (Outcome-cases s.outcome) [
        | inr (e, failed) ↦
            rw (s.result, failed)
              (
                refl,
                refl,
                refl,
                inr (
                  error (concat ("Failed to fetch usage: " ∷ show_exception e ∷ [])),
                  refl,
                  refl,
                ),
              )
        | inl (answer, accepted) ↦ elim (Option-cases (payload_json answer)) [
          | inl bad ↦ rw (s.result, accepted, bad) (refl, refl, refl, inr (error _, refl, refl))
          | inr (v, good) ↦ rw (s.result, accepted, good) (refl, refl, refl, inl refl)
        ]
      ]
