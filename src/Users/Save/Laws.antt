-- ===== src/Users/Save/Laws.antt =====
-- frontend/src/components/UserManagement.tsx, `handleSaveUser`: the requests for an edited user, and its
-- membership in the inbounds.
use ogs_swg.Prelude.{
  String, List, [], ◌∷◌, ◌++◌, none, Bool, true, false, not, ◌&&◌, ◌≡◌, refl, arith, ◌∙◌, ap,
  str_eq, eq_iff, eq_refl, has, if◌then◌else◌, or_text,
}
use ogs_swg.Wire.{Request, CreateUserRequest, put, user, get, no_body}
use ogs_swg.Runtime.{
  Session, World, Outcome, ok, throws, Exception, M, Server, success, catch_outcome,
}
use ogs_swg.Api.{json_type}
use ogs_swg.Api.Users.{update_user}
use ogs_swg.Api.Accepted.{AlwaysAccepts, request, Sends, Sends-call, collect}
use ogs_swg.Users.{Page, Row}
use ogs_swg.Users.Fetch.{fetch_users-sent}
use ogs_swg.Users.Save.{
  original_tags, tags, normalize, rows_ok, name_changed, not_disabled, save_edited, finish_save,
  handle_save_user, update_payload,
}
use ogs_swg.Users.Save.Plan.{
  member_step, member_after, member_after-append, member_step-removal, drop_requests, put_requests,
  sync_requests, Sends-sync_inbounds,
}

Sends-update_user :
    (u : CreateUserRequest)
    → Sends {S = Page}
        (update_user u)
        (λ session. request session put "/api/users" json_type (user u) ∷ [])
unfolding update_user
Sends-update_user u = Sends-call put "/api/users" json_type (user u) _

module _ (s : Page) (tag : String) (session : Session) where
  abbrev after : Bool → List Request → Bool
  after = member_after s.new_user.name tag

  after-drop :
      (desired : List String) (t : String) (m : Bool)
      → after m (drop_requests s desired t session)
        ≡ (if not (has desired t) && str_eq t tag then false else m)
  unfolding member_after
  after-drop desired t m = ground (arith, member_step-removal s.new_user.name tag session t m)

  after-drops :
      (desired xs : List String) (m : Bool)
      → after m (collect (drop_requests s desired) xs session)
        ≡ (if has xs tag && not (has desired tag) then false else m)
  unfolding member_after
  after-drops desired [] m = refl
  after-drops desired (t ∷ xs) m =
      rw
        (
          member_after-append s.new_user.name tag m (collect (drop_requests s desired) xs session)
              (drop_requests s desired t session),
          after-drop desired t m,
        )
        (after-drops desired xs _ ∙ ground (arith, eq_iff t tag))

  after-put :
      (uuid : String) (originals : List String) (row : Row) (m : Bool)
      → after m (put_requests uuid s originals row session)
        ≡ (if not (has originals row.tag) && str_eq row.tag tag then true else m)
  unfolding member_after member_step
  after-put uuid originals row m = ground (arith, eq_refl s.new_user.name)

  after-puts :
      (uuid : String) (originals : List String) (rows : List Row) (m : Bool)
      → after m (collect (put_requests uuid s originals) rows session)
        ≡ (if has (tags rows) tag && not (has originals tag) then true else m)
  unfolding member_after
  after-puts uuid originals [] m = refl
  after-puts uuid originals (row ∷ rows) m =
      rw
        (
          member_after-append s.new_user.name tag m
              (collect (put_requests uuid s originals) rows session)
              (put_requests uuid s originals row session),
          after-put uuid originals row m,
        )
        (after-puts uuid originals rows _ ∙ ground (arith, eq_iff row.tag tag))

  -- After both loops the user is in the inbounds of the form, if it was in the original ones.
  after-sync :
      (uuid : String) (rows : List Row) (m : Bool) (before : List Request)
      → after m before ≡ has (original_tags s) tag
      → after m (sync_requests uuid s rows session ++ before) ≡ has (tags rows) tag
  after-sync uuid rows m before h =
      rw
        (
          member_after-append s.new_user.name tag m (sync_requests uuid s rows session) before,
          member_after-append s.new_user.name tag (after m before)
              (collect (put_requests uuid s (original_tags s)) rows session)
              (collect (drop_requests s (tags rows)) (original_tags s) session),
          after-drops (tags rows) (original_tags s) (after m before),
          after-puts uuid (original_tags s) rows _,
          h,
        )
        (ground arith)

  -- Reading the users and the update of the user itself leave the membership alone.
  after-update :
      (fresh : String) (rows : List Row) (m : Bool) (before : List Request)
      → after m
          (request session put "/api/users" json_type (user (update_payload fresh s rows)) ∷ before)
        ≡ after m before
  unfolding member_after member_step
  after-update fresh rows m before = refl

  after-get :
      (m : Bool) (before : List Request)
      → after m (request session get "/api/users" none no_body ∷ before) ≡ after m before
  unfolding member_after member_step
  after-get m before = refl

-- What an edited user's branch sends, and that it succeeds.
save_edited-accepted :
    (server : Server) (fresh : String) (s : Page) (rows : List Row) (w : World Page)
    → AlwaysAccepts server
    → (not_disabled s && not (name_changed s)) ≡ true
    → save_edited fresh s rows server w ≡ (
      ok tt,
      record w {
        sent =
            sync_requests (or_text s.new_user.uuid fresh) s rows w.session
            ++ request w.session put "/api/users" json_type (user (update_payload fresh s rows))
              ∷ w.sent;
        notices = success "User updated successfully" ∷ w.notices;
      },
    )
unfolding save_edited
save_edited-accepted server fresh s rows w accepts synced = rw (
  (Sends-update_user (update_payload fresh s rows)).effect server accepts w,
  synced,
  (Sends-sync_inbounds (or_text s.new_user.uuid fresh) s rows).effect server accepts _,
)

finish_save-sent :
    (server : Server) (s : Page) (w : World Page)
    → ((finish_save s server w).0 ≡ ok tt)
      × ((finish_save s server w).1.sent ≡ request w.session get "/api/users" none no_body ∷ w.sent)
unfolding finish_save
finish_save-sent server s w = fetch_users-sent server _

catch-sent :
    {S : Type 0} (r : Outcome (Unit {0}) × World S) (h : Exception → M S (Unit {0}))
    (server : Server)
    → r.0 ≡ ok tt
    → (catch_outcome r h server).1 ≡ r.1
catch-sent (ok tt, w) h server e = refl
catch-sent (throws x, w) h server e = cc

-- Saving an edited user with valid rows, under its old name and not disabled, while the server
-- accepts every request: these are all the requests, the newest first. The user is updated, then the
-- inbounds are gone through, and then the list is read again.
pub handle_save_user-edited :
    (server : Server) (fresh : String) (s : Page) (w : World Page)
    → AlwaysAccepts server
    → rows_ok (normalize s.user_type s.inbound_rows) ≡ true
    → s.is_editing ≡ true
    → name_changed s ≡ false
    → not_disabled s ≡ true
    → (handle_save_user fresh s server w).1.sent
      ≡ request w.session get "/api/users" none no_body
        ∷ (sync_requests
              (or_text s.new_user.uuid fresh)
              s
              (normalize s.user_type s.inbound_rows)
              w.session
            ++ request w.session put "/api/users" json_type
                (user (update_payload fresh s (normalize s.user_type s.inbound_rows)))
              ∷ w.sent)
unfolding handle_save_user
handle_save_user-edited server fresh s w accepts valid editing same_name enabled =
    let synced : (not_disabled s && not (name_changed s)) ≡ true = rw (enabled, same_name) in
    simp (valid, editing, same_name)
      (rw
        (save_edited-accepted server fresh s (normalize s.user_type s.inbound_rows) w accepts
          synced)
        (let (returned, sent) = finish_save-sent server s _ in
          ap (λ (v : World Page). v.sent) (catch-sent _ _ server returned) ∙ sent))

-- Saving an edited user with valid rows, under its old name and not disabled, while the server
-- accepts every request: if by the requests so far the user is in an inbound exactly where that is
-- one of the original ones, it ends in it exactly where that is one of the form.
pub handle_save_user-membership :
    (server : Server) (fresh : String) (s : Page) (w : World Page) (tag : String) (m : Bool)
    → AlwaysAccepts server
    → rows_ok (normalize s.user_type s.inbound_rows) ≡ true
    → s.is_editing ≡ true
    → name_changed s ≡ false
    → not_disabled s ≡ true
    → member_after s.new_user.name tag m w.sent ≡ has (original_tags s) tag
    → member_after s.new_user.name tag m (handle_save_user fresh s server w).1.sent
      ≡ has (tags (normalize s.user_type s.inbound_rows)) tag
handle_save_user-membership server fresh s w tag m accepts valid editing same_name enabled h =
    let rows : List Row = normalize s.user_type s.inbound_rows in
    rw (handle_save_user-edited server fresh s w accepts valid editing same_name enabled) (
      after-get s tag w.session m _
      ∙ after-sync s tag w.session (or_text s.new_user.uuid fresh) rows m _
          (after-update s tag w.session fresh rows m w.sent ∙ h))
