-- ===== src/Settings/Laws.antt =====
-- frontend/src/components/Settings.tsx: the stored preferences, and when a password is sent.
pub mod Username
pub mod Reload
use ogs_swg.Prelude.{
  ℕ, ◌≤◌, String, true, none, some, [], ◌∷◌, ◌≡◌, refl, ap, ◌∙◌, ◌⊎◌, inl, inr, arith, not, ◌||◌,
  ltb, str_eq, eq_iff, truthy, or_text, Bool-cases, concat,
}
use ogs_swg.Wire.{put, fields, Request}
use ogs_swg.Runtime.{
  World, Server, ok, success, error, Notice, show_exception, try_catch, ◌>>◌, notify, update,
}
use ogs_swg.Json.{Json, string, number, stringify_compact}
use ogs_swg.Json.Parser.{parse}
use ogs_swg.Json.Laws.{parse-stringify_compact}
use ogs_swg.Api.{json_type}
use ogs_swg.Api.Accepted.{request}
use ogs_swg.Api.Settled.{Settled, Settled-bind, call-Settled, IsPure-skip, Outcome-cases}
use ogs_swg.Api.Users.{update_password}
use ogs_swg.Settings.{Page, DashboardPrefs, Service, singbox, wireguard, no_password}
use ogs_swg.Settings.Prefs.{
  normalized, prefs_json, save_prefs, load_prefs, parsed_prefs, load_stored, stored_service,
  stored_refresh, service_name, max, or_number,
}
use ogs_swg.Settings.Account.{utf16_length, handle_change_password, toast}

pub stored_service-service_name :
    (s : Service) → stored_service (some (string (service_name s))) ≡ s
stored_service-service_name singbox = refl
stored_service-service_name wireguard = refl

pub stored_refresh-max : (n old : ℕ) → stored_refresh old (some (number (max 1000 n))) ≡ max 1000 n
stored_refresh-max n old = ground arith

pub or_text-or_text : (s d : String) → or_text (or_text s d) d ≡ or_text s d
or_text-or_text s d = ground arith

pub truthy-or_text : (s d : String) → truthy d ≡ true → truthy (or_text s d) ≡ true
truthy-or_text s d h = elim (Bool-cases (truthy s)) [
  | inl filled ↦ rw filled filled
  | inr empty ↦ rw empty h
]

parsed_prefs-normalized :
    (d e : DashboardPrefs) → parsed_prefs (some (prefs_json (normalized d))) e ≡ normalized d
unfolding parsed_prefs prefs_json normalized
parsed_prefs-normalized d e =
    rw
      (
        stored_service-service_name d.default_service,
        stored_refresh-max (or_number d.refresh_ms 10000) 10000,
        or_text-or_text d.default_range "24h",
      )
      refl

no_json : parse "" ≡ none
unfolding parse
no_json = refl

pub truthy-parse : (t : String) (v : Json) → parse t ≡ some v → truthy t ≡ true
truthy-parse t v h = elim (Bool-cases (str_eq t "")) [
  | inl empty ↦ cc (h, no_json, ap parse ((eq_iff t "").0 empty))
  | inr filled ↦ rw filled refl
]

load_stored-saved :
    (d e : DashboardPrefs)
    → load_stored (some (stringify_compact (prefs_json (normalized d)))) e ≡ normalized d
load_stored-saved d e =
    let parses = parse-stringify_compact (prefs_json (normalized d)) in
    rw (truthy-parse _ _ parses, parses) (parsed_prefs-normalized d e)

normalized-bounds :
    (d : DashboardPrefs)
    → (1000 ≤ (normalized d).refresh_ms) × (truthy (normalized d).default_range ≡ true)
unfolding normalized
normalized-bounds d = (ground arith, truthy-or_text d.default_range "24h" refl)

-- Preferences that were saved on one page, and are loaded on a page that finds them in the storage,
-- are those of the first page as it keeps them: they refresh at most once a second, and have a
-- range. So saving and loading again changes nothing.
pub load_prefs-save_prefs :
    (p q : Page)
    → q.stored_prefs ≡ (save_prefs p).stored_prefs
    → ((load_prefs q).dashboard_prefs ≡ (save_prefs p).dashboard_prefs)
      × (1000 ≤ (load_prefs q).dashboard_prefs.refresh_ms)
      × (truthy (load_prefs q).dashboard_prefs.default_range ≡ true)
unfolding load_prefs save_prefs
load_prefs-save_prefs p q h =
    let same : load_stored q.stored_prefs q.dashboard_prefs ≡ normalized p.dashboard_prefs =
      ap (λ o. load_stored o q.dashboard_prefs) h
      ∙ load_stored-saved p.dashboard_prefs q.dashboard_prefs in
    (
      same,
      rw same (normalized-bounds p.dashboard_prefs).0,
      rw same (normalized-bounds p.dashboard_prefs).1,
    )

-- The request of a new password.
abbrev pub password_request : World Page → Request
password_request w = request w.session put "/api/auth/password" json_type (
    fields (
      ("current_password", some w.ui.password_data.current)
      ∷ ("new_password", some w.ui.password_data.new)
      ∷ []))

password_put :
    (server : Server) (w : World Page)
    → Settled
        (update_password w.ui.password_data.current w.ui.password_data.new)
        server
        w
        (password_request w)
unfolding update_password
password_put server w = Settled-bind server w _ _ _ IsPure-skip (
    call-Settled server w put "/api/auth/password" json_type
      (fields (
        ("current_password", some w.ui.password_data.current)
        ∷ ("new_password", some w.ui.password_data.new)
        ∷ []))
      "Failed to update password")

-- How the change ends once it is sent.
sent-ends :
    (server : Server) (w : World Page)
    → let r =
        try_catch
          (update_password w.ui.password_data.current w.ui.password_data.new
            >> (notify (success "Password updated successfully")
                >> update (λ p. record p { password_data = no_password })))
          (λ err. toast (concat ("Failed to update password: " ∷ show_exception err ∷ [])))
          server
          w in
      (r.0 ≡ ok tt)
      × ((n : Notice) × (r.1.notices ≡ n ∷ w.notices))
      × (r.1.sent ≡ password_request w ∷ w.sent)
sent-ends server w =
    let s = password_put server w in
    elim (Outcome-cases s.outcome) [
      | inl (a, accepted) ↦
          rw (s.result, accepted) (refl, (success "Password updated successfully", refl), refl)
      | inr (e, failed) ↦
          rw (s.result, failed)
            (
              refl,
              (error (concat ("Failed to update password: " ∷ show_exception e ∷ [])), refl),
              refl,
            )
    ]

-- Whatever the server answers, the change of a password returns and shows one message. Either
-- nothing is sent and the fields stay; or the new password was typed twice alike, it has 8 units of
-- 16 bits or more, no field is empty, and it is sent once, with the old one.
pub handle_change_password-guard :
    (server : Server) (w : World Page)
    → let r = handle_change_password w.ui server w in
      let d = w.ui.password_data in
      (r.0 ≡ ok tt)
      × ((n : Notice) × (r.1.notices ≡ n ∷ w.notices))
      × (((r.1.sent ≡ w.sent) × (r.1.ui.password_data ≡ d))
          ⊎ ((d.new ≡ d.confirm)
              × (8 ≤ utf16_length d.new)
              × (truthy d.current ≡ true)
              × (r.1.sent ≡ password_request w ∷ w.sent)))
unfolding handle_change_password
handle_change_password-guard server w =
    let d = w.ui.password_data in
    elim (Bool-cases (not (truthy d.current) || not (truthy d.new) || not (truthy d.confirm))) [
      | inl empty ↦ rw empty (refl, (error "All fields are required", refl), inl (refl, refl))
      | inr filled ↦ elim (Bool-cases (str_eq d.new d.confirm)) [
        | inr differ ↦
            rw (filled, differ) (refl, (error "New passwords do not match", refl), inl (refl, refl))
        | inl alike ↦ elim (Bool-cases (ltb (utf16_length d.new) 8)) [
          | inl short ↦
              rw (filled, alike, short)
                (refl, (error "New password must be at least 8 characters", refl), inl (refl, refl))
          | inr long ↦
              let (done, notice, sent) = sent-ends server w in
              rw (filled, alike, long)
                (
                  done,
                  notice,
                  inr ((eq_iff d.new d.confirm).0 alike, ground arith, ground arith, sent),
                )
        ]
      ]
    ]
