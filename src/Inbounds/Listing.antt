-- ===== src/Inbounds/Listing.antt =====
-- frontend/src/components/singbox/InboundList.tsx and InboundUserModal.tsx: the list of the inbounds
-- with its dialog, and the dialog of an inbound's user.
-- Of an inbound the list keeps the tag and the type.
use ogs_swg.Prelude.{
  String, Bool, true, false, Option, none, some, List, [], ◌∷◌, not, ◌||◌, concat, truthy,
  if◌then◌else◌,
}
use ogs_swg.Wire.{Inbound}
use ogs_swg.Runtime.{
  M, ◌>>=◌, ◌>>◌, skip, update, notify, success, error, try_catch, show_exception,
}
use ogs_swg.Json.{Members, object, stringify_compact}
use ogs_swg.Api.Singbox.{
  get_singbox_inbounds, add_singbox_inbound, update_singbox_inbound, delete_singbox_inbound,
}

pub record Page : Type 0 where
  pub inbounds : List Inbound
  pub loading : Bool
  pub is_modal_open : Bool
  pub editing_inbound : Option Inbound

abbrev pub start : Page
start = record { inbounds = []; loading = false; is_modal_open = false; editing_inbound = none }

-- `loadInbounds`
unfoldable pub load_inbounds : M Page (Unit {0})
unfolding get_singbox_inbounds
load_inbounds = do
  update (λ p. record p { loading = true })
  try_catch (do found ← get_singbox_inbounds; update (λ p. record p { inbounds = found }))
      (λ err. notify (error "Failed to load inbounds"))
  update (λ p. record p { loading = false })

-- `handleDelete`, with the answer to its question.
unfoldable pub handle_delete : Bool → String → M Page (Unit {0})
unfolding delete_singbox_inbound load_inbounds
handle_delete confirmed tag =
    if not confirmed
    then skip
    else try_catch
        (do
          delete_singbox_inbound tag
          notify (success "Inbound deleted successfully")
          load_inbounds)
        (λ err. notify (error (concat ("Failed to delete inbound: " ∷ show_exception err ∷ []))))

-- `handleEdit` and `handleAdd`
unfoldable pub handle_edit : Inbound → Page → Page
handle_edit inbound p = record p { editing_inbound = some inbound; is_modal_open = true }

unfoldable pub handle_add : Page → Page
handle_add p = record p { editing_inbound = none; is_modal_open = true }

-- `handleSave`: the request, which depends on the inbound that is edited, with its message.
abbrev pub send_inbound : Option Inbound → Members → M Page (Unit {0})
send_inbound (some i) config = do
  update_singbox_inbound i.tag (stringify_compact (object config))
  notify (success "Inbound updated successfully")
send_inbound none config = do
  add_singbox_inbound (stringify_compact (object config))
  notify (success "Inbound created successfully")

unfoldable pub handle_save : Page → Members → M Page (Unit {0})
unfolding update_singbox_inbound add_singbox_inbound load_inbounds
handle_save s config =
    try_catch
      (do
        send_inbound s.editing_inbound config
        update (λ p. record p { is_modal_open = false })
        load_inbounds)
      (λ err. notify (error (concat ("Failed to save inbound: " ∷ show_exception err ∷ []))))

-- InboundUserModal.tsx; a new identifier is an argument.
pub record UserForm : Type 0 where
  pub name : String
  pub uuid : String
  pub flow : String

-- The effect that runs when the dialog is opened.
unfoldable pub open_user : Option UserForm → String → UserForm
open_user none fresh = record { name = ""; uuid = fresh; flow = "xtls-rprx-vision" }
open_user (some u) fresh = u

-- `handleSubmit`: the user that is handed on, before the dialog closes.
unfoldable pub submit_user : UserForm → Option UserForm
submit_user form = if not (truthy form.name) || not (truthy form.uuid) then none else some form
