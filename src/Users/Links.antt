-- ===== src/Users/Links.antt =====
-- frontend/src/components/UserManagement.tsx: the links in the dialog with the QR code.
-- The cache is an object that is used as a map; tags that are named like a member of every object
-- (`constructor`) are left out of account.
pub mod Laws
use ogs_swg.Prelude.{
  ℕ, zero, suc, String, List, [], ◌∷◌, Option, none, some, Bool, true, false, str_eq, truthy,
  or_text, or_default, if◌then◌else◌,
}
use ogs_swg.Wire.{UserStatus}
use ogs_swg.Runtime.{
  M, ◌>>=◌, ◌>>◌, ok, skip, return, update, Exception, try_catch, notify, success, error,
}
use ogs_swg.Api.Users.{get_user_link}
use ogs_swg.Api.Singbox.{apply_singbox_changes}
use ogs_swg.Users.{Page, Modal, qr}
use ogs_swg.Users.Removal.{tags_of}

abbrev reset_links : Page → Page
reset_links p = record p { qr_link = ""; qr_error = ""; qr_link_cache = [] }

-- The effect that runs when the dialog changed.
unfoldable pub modal_changed : Page → Page
modal_changed p = elim p.modal [
  | qr u ↦ elim (tags_of u) [
    | [] ↦ p
    | tag ∷ _ ↦ reset_links (record p { selected_qr_inbound = tag })
  ]
  | _ ↦ reset_links (record p { selected_qr_inbound = "" })
]

-- `cache[tag]`, and `{ ...cache, [tag]: link }`.
unfoldable pub cache_get : String → List (String × Option String) → Option String
cache_get tag [] = none
cache_get tag ((t, link) ∷ rest) = if str_eq t tag then link else cache_get tag rest

unfoldable pub cache_put :
    String → Option String → List (String × Option String) → List (String × Option String)
cache_put tag link [] = (tag, link) ∷ []
cache_put tag link ((t, old) ∷ rest) =
    if str_eq t tag then (tag, link) ∷ rest else (t, old) ∷ cache_put tag link rest

-- The call of `getUserLink`; its result is whether the cache was set, which lets the effect run
-- again.
unfoldable pub request_link : UserStatus → String → M Page Bool
unfolding get_user_link
request_link user tag = do
  update (λ p. record p { qr_loading = true; qr_error = "" })
  changed ←
      try_catch
        (do
          link ← get_user_link user.name tag
          update (λ p. record p {
            qr_link = or_default link "";
            qr_link_cache = cache_put tag link p.qr_link_cache;
          })
          return true)
        (λ err.
          update
            (λ p. record p { qr_link = ""; qr_error = or_text err.message "Failed to load link" })
          >> return false)
  update (λ p. record p { qr_loading = false })
  return changed

-- The effect, once the dialog is known to be that of a user.
unfoldable pub load_selected : UserStatus → M Page Bool
load_selected user server w =
    if truthy w.ui.selected_qr_inbound
    then if truthy (or_default (cache_get w.ui.selected_qr_inbound w.ui.qr_link_cache) "")
      then (
        ok false,
        record w {
          ui = record w.ui {
            qr_link = or_default (cache_get w.ui.selected_qr_inbound w.ui.qr_link_cache) "";
            qr_error = "";
          };
        },
      )
      else request_link user w.ui.selected_qr_inbound server w
    else (ok false, w)

abbrev pub load_for : Modal → M Page Bool
load_for (qr user) = load_selected user
load_for _ = return false

-- The effect that loads the link of the selected inbound, on the current state. It depends on the
-- cache, so it runs again when the cache was set.
unfoldable pub load_link : M Page Bool
load_link server w = load_for w.ui.modal server w

-- The runs of the effect that follow one another, at most as many as the first argument says; the
-- result is whether yet another run is due.
unfoldable pub run_link_effect : ℕ → M Page Bool
run_link_effect zero = return true
run_link_effect (suc n) = do
  again ← load_link
  (let rest = run_link_effect n in if again then rest else return false)

-- `handleApplySingboxChanges`
unfoldable pub handle_apply_singbox_changes : M Page (Unit {0})
unfolding apply_singbox_changes
handle_apply_singbox_changes =
    try_catch
      (do
        apply_singbox_changes
        update (λ p. record p { singbox_pending_changes = false })
        notify (success "Sing-box configuration applied successfully"))
      (λ err. notify (error "Failed to apply changes. Please try again."))

-- `handleCopyLink`, with whether the browser has copied, and the end of its timer.
unfoldable pub handle_copy_link : Bool → M Page (Unit {0})
handle_copy_link copies =
    if copies
    then update (λ p. record p { copied = true }) >> notify (success "Link copied to clipboard")
    else notify (error "Failed to copy link")

abbrev pub copied_over : Page → Page
copied_over p = record p { copied = false }
