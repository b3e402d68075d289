-- ===== src/Users/Removal/Inbounds.antt =====
-- frontend/src/components/UserManagement.tsx, `handleRemoveFromSelectedInbounds`: the requests, and the
-- membership of the user in the inbounds.
use ogs_swg.Prelude.{
  String, List, [], ◌∷◌, ◌++◌, none, some, Bool, false, ◌≡◌, refl, ◌∙◌, ap, arith, length, ◌==◌,
  has, concat, if◌then◌else◌, Bool-cases, inl, inr,
}
use ogs_swg.Wire.{Request, get, delete, no_body, UserStatus}
use ogs_swg.Runtime.{
  World, Server, Session, Outcome, ok, throws, Exception, M, catch_outcome, success,
}
use ogs_swg.Encoding.{encode_uri_component}
use ogs_swg.Encoding.Decimal.{decimal}
use ogs_swg.Api.Users.{delete_user, remove_user_from_inbound, user_inbound_url}
use ogs_swg.Api.Accepted.{AlwaysAccepts, request, Sends, Sends-call, Sends-for_each, collect}
use ogs_swg.Users.{Page, closed, modal_data}
use ogs_swg.Users.Fetch.{fetch_users-sent}
use ogs_swg.Users.Removal.{tags_of, remove_from_inbounds, handle_remove_from_selected_inbounds}
use ogs_swg.Users.Save.Plan.{member_after, member_step, member_after-append, member_step-removal}

abbrev pub delete_request : UserStatus → Session → Request
delete_request u session =
    request session delete (concat ("/api/users?name=" ∷ encode_uri_component u.name ∷ [])) none
      no_body

abbrev pub removal : UserStatus → String → Session → List Request
removal u tag session = request session delete (user_inbound_url u.name tag) none no_body ∷ []

abbrev pub list_request : Session → Request
list_request session = request session get "/api/users" none no_body

Sends-delete_user :
    (u : UserStatus) → Sends {S = Page} (delete_user u.name) (λ s. delete_request u s ∷ [])
unfolding delete_user
Sends-delete_user u = Sends-call delete _ none no_body _

Sends-removal :
    (u : UserStatus) (tag : String)
    → Sends {S = Page} (remove_user_from_inbound u.name tag) (removal u tag)
unfolding remove_user_from_inbound
Sends-removal u tag = Sends-call delete _ none no_body _

-- The requests before the list is read again.
abbrev pub requests_for : UserStatus → List String → Session → List Request
requests_for u selected session =
    if length selected == length (tags_of u)
    then delete_request u session ∷ []
    else collect (removal u) selected session

remove_from_inbounds-sent :
    (u : UserStatus) (selected : List String) (server : Server) (w : World Page)
    → AlwaysAccepts server
    → ((remove_from_inbounds u selected server w).0 ≡ ok tt)
      × ((remove_from_inbounds u selected server w).1.sent
          ≡ list_request w.session ∷ (requests_for u selected w.session ++ w.sent))
unfolding remove_from_inbounds
remove_from_inbounds-sent u selected server w h =
    elim (Bool-cases (length selected == length (tags_of u))) [
      | inl whole ↦
          rw (whole, (Sends-delete_user u).effect server h w)
            (fetch_users-sent server (record w {
              sent = delete_request u w.session ∷ w.sent;
              notices = success "User deleted successfully" ∷ w.notices;
            }))
      | inr part ↦
          rw
            (
              part,
              (Sends-for_each (remove_user_from_inbound u.name) (removal u) (Sends-removal u)
                    selected).effect
                  server h w,
            )
            (fetch_users-sent server (record w {
              sent = collect (removal u) selected w.session ++ w.sent;
              notices =
                  success
                    (concat ("User removed from " ∷ decimal (length selected) ∷ " inbound(s)" ∷ []))
                  ∷ w.notices;
            }))
    ]

catch-sent :
    (r : Outcome (Unit {0}) × World Page) (g : Exception → M Page (Unit {0})) (server : Server)
    → r.0 ≡ ok tt
    → catch_outcome r g server ≡ r
catch-sent (ok tt, w) g server e = refl
catch-sent (throws x, w) g server e = cc

handle_remove-sent :
    (server : Server) (s : Page) (w : World Page) (u : UserStatus)
    → AlwaysAccepts server
    → modal_data s.modal ≡ some u
    → (handle_remove_from_selected_inbounds s server w).1.sent
      ≡ list_request w.session ∷ (requests_for u s.selected_inbounds_to_remove w.session ++ w.sent)
unfolding handle_remove_from_selected_inbounds
handle_remove-sent server s w u h shown =
    let w₁ : World Page = record w {
      ui = record w.ui { modal = closed; selected_inbounds_to_remove = [] };
    } in
    let (returned, sent) = remove_from_inbounds-sent u s.selected_inbounds_to_remove server w₁ h in
    rw (shown, handle_remove_from_selected_inbounds)
      (ap (λ (r : Outcome (Unit {0}) × World Page). r.1.sent) (catch-sent _ _ server returned)
        ∙ sent)

module _ (u : UserStatus) (tag : String) (session : Session) where
  after-removals :
      (selected : List String) (m : Bool)
      → member_after u.name tag m (collect (removal u) selected session)
        ≡ (if has selected tag then false else m)
  unfolding member_after
  after-removals [] m = refl
  after-removals (t ∷ selected) m =
      rw
        (
          member_after-append u.name tag m (collect (removal u) selected session)
              (removal u t session),
          member_step-removal u.name tag session t m,
        )
        (after-removals selected _ ∙ ground arith)

  after-list :
      (m : Bool) (before : List Request)
      → member_after u.name tag m (list_request session ∷ before) ≡ member_after u.name tag m before
  unfolding member_after member_step
  after-list m before = refl

-- While the server accepts every request, removing the user of the dialog from the selected inbounds,
-- which are fewer or more than it has, ends its membership in those and in no other.
pub handle_remove_from_selected_inbounds-membership :
    (server : Server) (s : Page) (w : World Page) (u : UserStatus) (tag : String) (m : Bool)
    → AlwaysAccepts server
    → modal_data s.modal ≡ some u
    → (length s.selected_inbounds_to_remove == length (tags_of u)) ≡ false
    → member_after u.name tag m (handle_remove_from_selected_inbounds s server w).1.sent
      ≡ (if has s.selected_inbounds_to_remove tag then false else member_after u.name tag m w.sent)
handle_remove_from_selected_inbounds-membership server s w u tag m h shown part =
    let selected : List String = s.selected_inbounds_to_remove in
    rw
      (
        handle_remove-sent server s w u h shown,
        after-list u tag w.session m (requests_for u selected w.session ++ w.sent),
        part,
        member_after-append u.name tag m (collect (removal u) selected w.session) w.sent,
      )
      (after-removals u tag w.session selected (member_after u.name tag m w.sent))
