-- ===== src/Settings/Laws/Reload.antt =====
-- frontend/src/components/Settings.tsx: what loading the page again does to its preferences.
use ogs_swg.Prelude.{
  ◌≡◌, refl, ◌∙◌, inl, inr, if◌then◌else◌, Bool, true, false, ℕ, some, none, Option, ◌∷◌, String,
  or_default, [], ◌==◌, arith, Bool-cases,
}
use ogs_swg.Json.{Json}
use ogs_swg.Wire.{Request, get, no_body}
use ogs_swg.Runtime.{
  World, Server, ok, throws, M, ◌>>◌, ◌>>=◌, update, skip, try_catch, Outcome, return,
}
use ogs_swg.Api.{any_json, parse}
use ogs_swg.Api.Accepted.{request}
use ogs_swg.Api.Settled.{Settled, Settled-bind, call-Settled, IsPure-parse, Outcome-cases}
use ogs_swg.Api.Services.{
  get_features, get_public_ip, get_sampler_history, as_flags, as_public_ip, history_url,
}
use ogs_swg.Api.Stats.{get_system_status, as_status}
use ogs_swg.Settings.{
  Page, load_features, load_db_stats, load_sampler_history, load_all, receive_status,
  array_or_empty,
}
use ogs_swg.Api.Decoded.{payload_json}
use ogs_swg.Settings.Prefs.{load_prefs, save_prefs}
use ogs_swg.Settings.Inputs.{history_effect, choose_history_limit, choose_range}
use ogs_swg.Settings.Laws.{load_prefs-save_prefs}

-- The handler returns, whatever the server answers, and leaves the preferences as they are.
abbrev KeepsPrefs : M Page (Unit {0}) → Type 0
KeepsPrefs m =
    (server : Server) (w : World Page)
    → ((m server w).0 ≡ ok tt) × ((m server w).1.ui.dashboard_prefs ≡ w.ui.dashboard_prefs)

KeepsPrefs-then : (m k : M Page (Unit {0})) → KeepsPrefs m → KeepsPrefs k → KeepsPrefs (m >> k)
KeepsPrefs-then m k hm hk server w =
    let (returned, kept) = hm server w in
    let (ended, kept2) = hk server (m server w).1 in rw returned (ended, kept2 ∙ kept)

-- A call that sends one request, what is done with its answer, and a handler of what is thrown.
KeepsPrefs-call :
    {A : Type 0} (call : M Page A) (use_answer : A → M Page (Unit {0}))
    (give_up : M Page (Unit {0}))
    → ((server : Server) (w : World Page) → (req : Request) × Settled call server w req)
    → ((a : A) (server : Server) (w : World Page)
        → (use_answer a server w).1.ui.dashboard_prefs ≡ w.ui.dashboard_prefs)
    → KeepsPrefs give_up
    → KeepsPrefs (try_catch (call >>= use_answer) (λ err. give_up))
KeepsPrefs-call call use_answer give_up settled h g server w =
    let (req, s) = settled server w in
    let w₁ : World Page = record w { session = s.session; sent = req ∷ w.sent } in
    elim (Outcome-cases s.outcome) [
      | inr (e, failed) ↦ rw (s.result, failed) (g server w₁)
      | inl (a, accepted) ↦ elim (Outcome-cases (use_answer a server w₁).0) [
        | inl (_, fine) ↦ rw (s.result, accepted, fine) (refl, h a server w₁)
        | inr (e, thrown) ↦
            let (returned, kept) = g server (use_answer a server w₁).1 in
            rw (s.result, accepted, thrown) (returned, kept ∙ h a server w₁)
      ]
    ]

KeepsPrefs-skip : KeepsPrefs skip
KeepsPrefs-skip server w = (refl, refl)

load_features-KeepsPrefs : KeepsPrefs load_features
unfolding load_features get_features
load_features-KeepsPrefs =
    KeepsPrefs-call get_features (λ f. update (λ p. record p { features = f })) skip
      (λ server w. (
        request w.session get "/api/settings/features" none no_body,
        Settled-bind server w _ _ _ (IsPure-parse (λ res. as_flags res.json)) (
            call-Settled server w get "/api/settings/features" none no_body
              "Failed to fetch features"),
      ))
      (λ f server w. refl) KeepsPrefs-skip

load_db_stats-KeepsPrefs : KeepsPrefs load_db_stats
unfolding load_db_stats get_system_status receive_status
load_db_stats-KeepsPrefs =
    KeepsPrefs-call get_system_status (λ st. update (receive_status st)) skip
      (λ server w. (
        request w.session get "/api/status" none no_body,
        Settled-bind server w _ _ _ (IsPure-parse (λ res. as_status res.json))
            (call-Settled server w get "/api/status" none no_body "Failed to fetch system status"),
      ))
      (λ st server w. refl) KeepsPrefs-skip

use_history : Option Json → M Page (Unit {0})
use_history o = parse o >>= (λ h. update (λ p. record p { sampler_history = array_or_empty h }))

use_history-keeps :
    (o : Option Json) (server : Server) (w : World Page)
    → (use_history o server w).1.ui.dashboard_prefs ≡ w.ui.dashboard_prefs
unfolding use_history
use_history-keeps none server w = refl
use_history-keeps (some h) server w = refl

load_sampler_history-KeepsPrefs : (limit : ℕ) → KeepsPrefs (load_sampler_history limit)
unfolding load_sampler_history get_sampler_history use_history
load_sampler_history-KeepsPrefs limit =
    KeepsPrefs-call (get_sampler_history (some limit)) (λ answer. use_history (payload_json answer))
      (update (λ p. record p { sampler_history = [] }))
      (λ server w. (
        request w.session get (history_url (some limit)) none no_body,
        Settled-bind server w _ _ _ (IsPure-parse (λ res. any_json res.json)) (
            call-Settled server w get (history_url (some limit)) none no_body
              "Failed to fetch sampler history"),
      ))
      (λ answer. use_history-keeps (payload_json answer)) (λ server w. (refl, refl))

shown_ip-pure :
    (o : Option (Option String))
    → (r : Outcome String) × ((server : Server) (w : World Page)
        → (parse o >>= (λ ip. return (or_default ip ""))) server w ≡ (r, w))
shown_ip-pure none =
    (throws (record { name = "SyntaxError"; message = "Unexpected token" }), λ server w. refl)
shown_ip-pure (some ip) = (ok (or_default ip ""), λ server w. refl)

abbrev load_public_ip : M Page (Unit {0})
load_public_ip =
    try_catch (get_public_ip >>= (λ ip. update (λ p. record p { public_ip = ip }))) (λ err. skip)

load_public_ip-KeepsPrefs : KeepsPrefs load_public_ip
unfolding get_public_ip
load_public_ip-KeepsPrefs =
    KeepsPrefs-call get_public_ip (λ ip. update (λ p. record p { public_ip = ip })) skip
      (λ server w. (
        request w.session get "/api/settings/public-ip" none no_body,
        Settled-bind server w _ _ _ (λ res. shown_ip-pure (as_public_ip res.json))
            (call-Settled server w get "/api/settings/public-ip" none no_body
              "Failed to fetch public IP"),
      ))
      (λ ip server w. refl) KeepsPrefs-skip

abbrev both : Bool → M Page (Unit {0})
both first = if first then load_features >> load_db_stats else load_db_stats >> load_features

both-KeepsPrefs : (first : Bool) → KeepsPrefs (both first)
both-KeepsPrefs true =
    KeepsPrefs-then load_features load_db_stats load_features-KeepsPrefs load_db_stats-KeepsPrefs
both-KeepsPrefs false =
    KeepsPrefs-then load_db_stats load_features load_db_stats-KeepsPrefs load_features-KeepsPrefs

load_all-KeepsPrefs : (first : Bool) (s : Page) → KeepsPrefs (load_all first s)
unfolding load_all
load_all-KeepsPrefs first s =
    let begin : M Page (Unit {0}) = update (λ p. record p { loading = true }) in
    let end : M Page (Unit {0}) = update (λ p. record p { loading = false }) in
    let history = load_sampler_history s.history_limit in
    KeepsPrefs-then begin (both first >> (history >> (load_public_ip >> end)))
      (λ server w. (refl, refl))
      (KeepsPrefs-then (both first) (history >> (load_public_ip >> end)) (both-KeepsPrefs first) (
        KeepsPrefs-then history (load_public_ip >> end)
          (load_sampler_history-KeepsPrefs s.history_limit)
          (KeepsPrefs-then load_public_ip end load_public_ip-KeepsPrefs
            (λ server w. (refl, refl)))))

itself : (n : ℕ) → n == n ≡ true
itself n = ground arith

turned : (m n : ℕ) (b : Bool) → m == n ≡ b → n == m ≡ b
turned m n b h = ground arith

-- Let the page be loaded, preferences have been saved on some page, and others be chosen on this one,
-- which finds the saved ones in its storage. If another length of the history is chosen, the effect
-- that follows returns, whatever the server answers and in either order of its first answers, and the
-- page shows the saved preferences again. If the same length is chosen, or another range of the
-- preferences, it does nothing.
pub history_effect-save_prefs :
    (server : Server) (first : Bool) (p : Page) (w : World Page) (n : ℕ) (range : String)
    → w.ui.stored_prefs ≡ (save_prefs p).stored_prefs
    → let last = some w.ui.history_limit in
      let w₁ : World Page = record w { ui = choose_history_limit n w.ui } in
      let w₂ : World Page = record w { ui = choose_range range w.ui } in
      let r = history_effect last first w₁.ui server w₁ in
      (r.0 ≡ ok tt)
      × (r.1.ui.dashboard_prefs ≡ (
          if n == w.ui.history_limit then w.ui.dashboard_prefs else (save_prefs p).dashboard_prefs))
      × (history_effect last first w₂.ui server w₂ ≡ (ok tt, w₂))
unfolding history_effect
history_effect-save_prefs server first p w n range stored =
    let ui₁ = choose_history_limit n w.ui in
    let loaded : World Page = record w { ui = load_prefs ui₁ } in
    let (returned, kept) = load_all-KeepsPrefs first ui₁ server loaded in
    let limit = w.ui.history_limit in
    elim (Bool-cases (n == w.ui.history_limit)) [
      | inl same ↦ rw (same, turned n limit true same, itself limit) (refl, refl, refl)
      | inr other ↦
          rw (other, turned n limit false other, itself limit)
            (returned, kept ∙ (load_prefs-save_prefs p ui₁ stored).0, refl)
    ]
