-- ===== src/Raw/Laws.antt =====
-- frontend/src/components/RawConfig.tsx: how saving ends, whatever the server answers.
use ogs_swg.Prelude.{
  ℕ, suc, String, List, [], ◌∷◌, Option, none, some, Bool, true, false, ◌≡◌, refl, ◌⊎◌, inl, inr,
  concat, eq_refl, ap, ◌∙◌, Option-cases,
}
use ogs_swg.Wire.{put, text, Request}
use ogs_swg.Runtime.{
  World, Server, Session, M, update, Exception, ok, throws, alert, show_exception, ◌>>◌,
}
use ogs_swg.Session.{logout}
use ogs_swg.Json.{Json}
use ogs_swg.Json.Parser.{parse}
use ogs_swg.Api.{text_type}
use ogs_swg.Api.Accepted.{request}
use ogs_swg.Api.Settled.{Verdict, accepted, denied, refused, verdict, asked, Ending, call-Ending}
use ogs_swg.Api.Singbox.{update_config}
use ogs_swg.Api.Wireguard.{update_wireguard_config}
use ogs_swg.Editor.{diff_lines, diff_from, split_lines}
use ogs_swg.Raw.{
  Page, Tab, raw_singbox, raw_wireguard, handle_save, save_tab, tab_diff, current_value,
  original_value,
}

diff_from-same : (n : ℕ) (ls : List String) → diff_from n ls ls ≡ []
diff_from-same n [] = refl
diff_from-same n (l ∷ ls) = rw (eq_refl l) (diff_from-same (suc n) ls)

diff_lines-same : (t : String) → diff_lines t t ≡ []
unfolding diff_lines
diff_lines-same t = diff_from-same 1 (split_lines t)

-- The request that saves the text of a tab, and the page with that text as the saved one.
abbrev pub save_request : Tab → World Page → Request
save_request raw_singbox w =
    request w.session put "/api/config" text_type (text w.ui.singbox_config)
save_request raw_wireguard w =
    request w.session put "/api/wireguard/config" text_type (text w.ui.wg_config)

abbrev pub saved_page : Tab → Page → Page
saved_page raw_singbox p = record p { original_singbox_config = p.singbox_config }
saved_page raw_wireguard p = record p { original_wg_config = p.wg_config }

abbrev is_none : Option Json → Bool
is_none none = true
is_none (some v) = false

-- The text of the tab for sing-box is no JSON.
abbrev pub is_unreadable : Tab → Page → Bool
is_unreadable raw_singbox p = is_none (parse p.singbox_config)
is_unreadable raw_wireguard p = false

abbrev pub IsFailure : Verdict → Type 0
IsFailure v = (v ≡ denied) ⊎ (v ≡ refused)

-- How saving the text of a tab ends.
abbrev Saves : Tab → Server → World Page → Type 0
Saves tab server w =
    ((is_unreadable tab w.ui ≡ true)
      × (e : Exception) × (save_tab tab w.ui server w ≡ (throws e, w)))
    ⊎ ((is_unreadable tab w.ui ≡ false)
        × (((verdict (server (save_request tab w ∷ w.sent)) ≡ accepted)
              × (save_tab tab w.ui server w
                  ≡ (ok tt, record (asked w (save_request tab w)) { ui = saved_page tab w.ui })))
            ⊎ (IsFailure (verdict (server (save_request tab w ∷ w.sent)))
                × (e : Exception) × (session : Session) × (save_tab tab w.ui server w
                    ≡ (throws e, record (asked w (save_request tab w)) { session = session })))))

-- A request and then the setter of the saved text.
Saves-Ending :
    (tab : Tab) (w : World Page) (server : Server) (m : M Page (Unit {0})) (keep : Page → Page)
    → keep w.ui ≡ saved_page tab w.ui
    → Ending m server w (save_request tab w)
    → is_unreadable tab w.ui ≡ false
    → save_tab tab w.ui server w ≡ (m >> update keep) server w
    → Saves tab server w
Saves-Ending tab w server m keep same e readable steps = elim e [
  | inl (good, done) ↦ inr (
    readable,
    inl (
      good,
      steps ∙ rw done (ap (λ p. (ok tt, record (asked w (save_request tab w)) { ui = p })) same),
    ),
  )
  | inr (inl (code, done)) ↦ inr (
    readable,
    inr (
      inl code,
      record { name = "Error"; message = "Unauthorized" },
      logout w.session,
      steps ∙ rw done refl,
    ),
  )
  | inr (inr (x, bad, done)) ↦ inr (readable, inr (inr bad, x, w.session, steps ∙ rw done refl))
]

save_tab-Saves : (tab : Tab) (server : Server) (w : World Page) → Saves tab server w
unfolding save_tab update_config update_wireguard_config
save_tab-Saves raw_wireguard server w =
    Saves-Ending raw_wireguard w server (update_wireguard_config w.ui.wg_config)
      (λ p. record p { original_wg_config = w.ui.wg_config }) refl
      (call-Ending server w put "/api/wireguard/config" text_type (text w.ui.wg_config) _) refl refl
save_tab-Saves raw_singbox server w = elim (Option-cases (parse w.ui.singbox_config)) [
  | inl bad ↦
      inl
        (ap is_none bad, record { name = "SyntaxError"; message = "Unexpected token" }, rw bad refl)
  | inr (v, good) ↦
      Saves-Ending raw_singbox w server (update_config w.ui.singbox_config)
        (λ p. record p { original_singbox_config = w.ui.singbox_config }) refl
        (call-Ending server w put "/api/config" text_type (text w.ui.singbox_config) _)
        (ap is_none good) (rw good refl)
]

tab_diff-saved_page : (tab : Tab) (p : Page) → p.active_tab ≡ tab → tab_diff (saved_page tab p) ≡ []
unfolding tab_diff original_value current_value
tab_diff-saved_page raw_singbox p h = rw h (diff_lines-same p.singbox_config)
tab_diff-saved_page raw_wireguard p h = rw h (diff_lines-same p.wg_config)

-- `handleSave` returns and shows one message. On the tab for sing-box a text that is no JSON is not
-- sent, and the page stays. Any other text of the tab is sent once, as it is, to the address of the
-- tab. If it is accepted, that text is the saved one of its tab and differs from it in no line, the
-- rest of the page stays, and the message says that it was saved. After every other answer, or none,
-- the page stays, and the message says what failed.
pub handle_save-ends :
    (server : Server) (w : World Page)
    → let r = handle_save w.ui server w in
      let tab = w.ui.active_tab in
      let answer = server (save_request tab w ∷ w.sent) in
      (r.0 ≡ ok tt)
      × (((is_unreadable tab w.ui ≡ true)
            × (r.1.sent ≡ w.sent)
            × (r.1.ui ≡ w.ui)
            × (e : Exception) × (r.1.notices
                ≡ alert (concat ("Failed to save: " ∷ show_exception e ∷ [])) ∷ w.notices))
          ⊎ ((is_unreadable tab w.ui ≡ false)
              × (r.1.sent ≡ save_request tab w ∷ w.sent)
              × (((verdict answer ≡ accepted)
                    × (r.1.ui ≡ saved_page tab w.ui)
                    × (tab_diff r.1.ui ≡ [])
                    × (r.1.notices ≡ alert "Config saved successfully!" ∷ w.notices))
                  ⊎ (IsFailure (verdict answer)
                      × (r.1.ui ≡ w.ui)
                      × (e : Exception) × (r.1.notices
                          ≡ alert (concat ("Failed to save: " ∷ show_exception e ∷ []))
                            ∷ w.notices)))))
unfolding handle_save
handle_save-ends server w = elim (save_tab-Saves w.ui.active_tab server w) [
  | inl (bad, e, done) ↦ rw done (refl, inl (bad, refl, refl, e, refl))
  | inr (readable, inl (good, done)) ↦ rw done (
    refl,
    inr (readable, refl, inl (good, refl, tab_diff-saved_page w.ui.active_tab w.ui refl, refl)),
  )
  | inr (readable, inr (failure, e, session, done)) ↦
      rw done (refl, inr (readable, refl, inr (failure, refl, e, refl)))
]
