-- ===== src/Singbox/Laws.antt =====
-- frontend/src/components/SingboxConfigEditor.tsx: what is written to a server that keeps the
-- configuration, and what the page shows of it afterwards.
use ogs_swg.Prelude.{
  String, true, false, none, some, ◌∷◌, map, not, ◌≡◌, refl, ap, ◌≤◌, ◌<◌, All, length, eq_refl,
  Option-cases, inl, inr, ◌⊎◌,
}
use ogs_swg.Wire.{Response, responds}
use ogs_swg.Runtime.{World, Server, ok, alert}
use ogs_swg.Json.{Json, stringify}
use ogs_swg.Json.Parser.{parse}
use ogs_swg.Json.Laws.{parse-stringify}
use ogs_swg.Api.Settled.{Outcome-cases}
use ogs_swg.Singbox.{
  Page, receive_rules, load_rules, save_rules, load_config, formatted, handle_save, has_changes,
}
use ogs_swg.Singbox.Store.{
  config_read, config_write, stored, Stores, get_singbox_config-stored,
  update_singbox_config-stored, update-Settled, read-ok,
}
use ogs_swg.Singbox.Rules.{preserved_rules, with_rules, has_invalid}
use ogs_swg.Singbox.Rules.Laws.{tidy, HasOutbound, IsConfig, Saved, with_rules-Saved}

parse-formatted : (t : String) → parse (formatted t (parse t)) ≡ parse t
parse-formatted t = elim (Option-cases (parse t)) [
  | inl bad ↦ rw bad bad
  | inr (v, good) ↦ rw good (parse-stringify v)
]

module _ (first : String) (server : Server) (h : Stores first server) where
  -- The page after its rules were read from a configuration.
  abbrev shows : Json → Page → Page
  shows config p = record (receive_rules config (record p { rules_loading = true })) {
    rules_loading = false;
  }

  load_rules-stored :
      (w : World Page) (config : Json)
      → parse (stored first w.sent) ≡ some config
      → load_rules server w
        ≡ (ok tt, record w { ui = shows config w.ui; sent = config_read w.session ∷ w.sent })
  unfolding load_rules
  load_rules-stored w config parsed =
      let loading : World Page = record w { ui = record w.ui { rules_loading = true } } in
      rw (get_singbox_config-stored first server h loading) (rw parsed refl)

  -- The world after the rules of the page were saved in a configuration.
  abbrev after_save : World Page → Json → World Page
  after_save w saved = record w {
    ui = record (shows saved (record w.ui { rules_saving = true })) { rules_saving = false };
    sent =
        config_read w.session
        ∷ config_write w.session (stringify saved)
        ∷ config_read w.session
        ∷ w.sent;
    notices = alert "Rules saved" ∷ w.notices;
  }

  save_rules-stored :
      (w : World Page) (config saved : Json)
      → parse (stored first w.sent) ≡ some config
      → with_rules w.ui.rules config ≡ some saved
      → has_invalid w.ui.rules ≡ false
      → save_rules w.ui server w ≡ (ok tt, after_save w saved)
  unfolding save_rules
  save_rules-stored w config saved parsed written valid =
      let saving : World Page = record w { ui = record w.ui { rules_saving = true } } in
      let read : World Page = record saving { sent = config_read w.session ∷ w.sent } in
      let sent : World Page = record read {
        sent = config_write w.session (stringify saved) ∷ read.sent;
        notices = alert "Rules saved" ∷ w.notices;
      } in
      rw
        (
          valid,
          get_singbox_config-stored first server h saving,
          parsed,
          written,
          update_singbox_config-stored first server h read (stringify saved),
          load_rules-stored sent saved (parse-stringify saved),
        )
        refl

  -- On a server that keeps the configuration, let the stored text be a configuration whose route is
  -- an object or left out, and each rule of the page have an inbound and an outbound that is not
  -- blank. Then `saveRules` returns, and the stored text is a configuration: it has the rules that
  -- the page cannot edit unchanged and in their order, every member but the route unchanged, and
  -- read back it gives the rules of the page with their outbounds trimmed, which the page shows. The
  -- message is that the rules are saved, and the page no longer waits.
  pub save_rules-Saved :
      (w : World Page) (config : Json)
      → parse (stored first w.sent) ≡ some config
      → IsConfig config
      → All HasOutbound w.ui.rules
      → has_invalid w.ui.rules ≡ false
      → let r = save_rules w.ui server w in
        (saved : Json) × Saved w.ui.rules config saved
        × (parse (stored first r.1.sent) ≡ some saved)
        × (r.0 ≡ ok tt)
        × (r.1.ui.rules ≡ map tidy w.ui.rules)
        × (r.1.ui.preserved_rules_count ≡ length (preserved_rules config))
        × (r.1.notices ≡ alert "Rules saved" ∷ w.notices)
        × (r.1.ui.rules_saving ≡ false)
        × (r.1.ui.rules_loading ≡ false)
  unfolding receive_rules
  save_rules-Saved w config parsed is_config complete valid =
      let (saved, written, laws) = with_rules-Saved w.ui.rules config complete is_config in
      rw (save_rules-stored w config saved parsed written valid) (
        saved,
        laws,
        parse-stringify saved,
        refl,
        laws.shown,
        ap length laws.preserved,
        refl,
        refl,
        refl,
      )

  -- On a server that keeps the configuration, `loadConfig` returns, does not wait any longer, and
  -- shows a text that stands for the same JSON value as the stored one, or for none if that does
  -- not; and the page has no changes to save.
  pub load_config-parse :
      (w : World Page)
      → let r = load_config server w in
        (r.0 ≡ ok tt)
        × (parse r.1.ui.config ≡ parse (stored first w.sent))
        × (has_changes r.1.ui ≡ false)
        × (r.1.ui.loading ≡ false)
  unfolding load_config has_changes
  load_config-parse w =
      let loading : World Page = record w { ui = record w.ui { loading = true } } in
      rw (get_singbox_config-stored first server h loading)
        (refl, parse-formatted (stored first w.sent), ap not (eq_refl _), refl)

-- Whatever the server answers, `handleSave` returns and does not wait any longer; a text that is no
-- JSON is not sent and a message says so, and another one is sent once, as it is. It is the saved
-- text afterwards, with a message, or else the saved text stays.
pub handle_save-sent :
    (server : Server) (w : World Page)
    → let r = handle_save w.ui server w in
      (r.0 ≡ ok tt)
      × (r.1.ui.saving ≡ false)
      × (r.1.ui.config ≡ w.ui.config)
      × (((parse w.ui.config ≡ none)
            × (r.1.sent ≡ w.sent)
            × (r.1.notices ≡ alert "Invalid JSON: Unexpected token" ∷ w.notices)
            × (r.1.ui.original_config ≡ w.ui.original_config))
          ⊎ ((v : Json) × (parse w.ui.config ≡ some v)
              × (r.1.sent ≡ config_write w.session w.ui.config ∷ w.sent)
              × (((r.1.ui.original_config ≡ w.ui.config)
                    × (r.1.notices
                        ≡ alert "Configuration saved and service restarted!" ∷ w.notices))
                  ⊎ (r.1.ui.original_config ≡ w.ui.original_config))))
unfolding handle_save
handle_save-sent server w = elim (Option-cases (parse w.ui.config)) [
  | inl bad ↦ rw bad (refl, refl, refl, inl (refl, refl, refl, refl))
  | inr (v, good) ↦ rw good (
      let saving : World Page = record w { ui = record w.ui { saving = true } } in
      let s = update-Settled w.ui.config server saving in
      elim (Outcome-cases s.outcome) [
        | inl (a, accepted) ↦
            rw (s.result, accepted) (refl, refl, refl, inr (v, refl, refl, inl (refl, refl)))
        | inr (e, failed) ↦ rw (s.result, failed) (refl, refl, refl, inr (v, refl, refl, inr refl))
      ])
]

-- Let the answer to the first request have a 2xx status and a text that is no JSON. Then `saveRules`
-- of rules with inbounds and outbounds returns having written nothing; it leaves the rules of the
-- page as they are, and says that saving failed.
pub save_rules-unreadable :
    (server : Server) (w : World Page) (res : Response)
    → server (config_read w.session ∷ w.sent) ≡ responds res
    → 200 ≤ res.status
    → res.status < 300
    → parse res.text ≡ none
    → has_invalid w.ui.rules ≡ false
    → let r = save_rules w.ui server w in
      (r.0 ≡ ok tt)
      × (r.1.sent ≡ config_read w.session ∷ w.sent)
      × (r.1.ui.rules ≡ w.ui.rules)
      × (r.1.ui.rules_saving ≡ false)
      × (r.1.notices ≡ alert "Failed to save rules" ∷ w.notices)
unfolding save_rules
save_rules-unreadable server w res answered low high bad valid =
    let saving : World Page = record w { ui = record w.ui { rules_saving = true } } in
    rw (valid, read-ok server saving res answered low high, bad) (refl, refl, refl, refl, refl)
