-- ===== src/Users/Removal/Laws.antt =====
-- frontend/src/components/UserManagement.tsx: what the dialogs for removal send to the server.
use ogs_swg.Prelude.{
  ℕ, ◌+◌, ◌≤◌, String, List, [], ◌∷◌, map, ◌≡◌, refl, ap, ◌∙◌, arith, any, filter, length,
  if◌then◌else◌, concat, List-cases, any-filter_nil, any-filter_cons, inl, inr,
}
use ogs_swg.Wire.{Request, Method, get, delete}
use ogs_swg.Runtime.{
  M, ◌>>◌, return, World, Outcome, ok, throws, Server, catch_outcome, bind_outcome, update,
}
use ogs_swg.Encoding.{encode_uri_component}
use ogs_swg.Api.Users.{delete_user}
use ogs_swg.Users.{Page, closed, fetch_users}
use ogs_swg.Users.Removal.{
  in_many_inbounds, attempt_delete, delete_each, report_deleted, delete_selected,
  confirm_delete_selected,
}

-- The method and the address of each request, the newest first.
abbrev pub Line : Type 0
Line = Method × String

abbrev pub lines : List Request → List Line
lines rs = map (λ (r : Request). (r.method, r.url)) rs

abbrev pub delete_line : String → Line
delete_line name = (delete, concat ("/api/users?name=" ∷ encode_uri_component name ∷ []))

-- Lines sent one after the other.
abbrev pub push_all : List Line → List Line → List Line
push_all [] before = before
push_all (l ∷ ls) before = push_all ls (l ∷ before)

delete_user-line :
    (name : String) (server : Server) (w : World Page)
    → lines (delete_user name server w).1.sent ≡ delete_line name ∷ lines w.sent
unfolding delete_user
delete_user-line name server w = ground arith

-- A failure is counted and goes no further.
caught :
    (r : Outcome (Unit {0}) × World Page) (server : Server)
    → (n : ℕ) × (catch_outcome (bind_outcome r (λ _. return 0) server) (λ err. return 1) server
        ≡ (ok n, r.1))
      × (n ≤ 1)
caught (ok tt, w) server = (0, refl, omega arith)
caught (throws e, w) server = (1, refl, omega arith)

attempt_delete-returns :
    (name : String) (server : Server) (w : World Page)
    → (n : ℕ) × (attempt_delete name server w ≡ (ok n, (delete_user name server w).1)) × (n ≤ 1)
unfolding attempt_delete
attempt_delete-returns name server w = caught (delete_user name server w) server

-- The loop ends after one request for each user, whatever the server answers.
delete_each-returns :
    (names : List String) (server : Server) (w : World Page)
    → (n : ℕ) × (w' : World Page) × (delete_each names server w ≡ (ok n, w'))
      × (lines w'.sent ≡ push_all (map delete_line names) (lines w.sent))
      × (n ≤ length names)
unfolding delete_each
delete_each-returns [] server w = (0, w, refl, refl, omega arith)
delete_each-returns (name ∷ rest) server w =
    let (n, attempted, le) = attempt_delete-returns name server w in
    let (m, w', looped, sent, le') =
      delete_each-returns rest server (delete_user name server w).1 in
    (
      n + m,
      w',
      rw (attempted, looped),
      sent ∙ ap (push_all (map delete_line rest)) (delete_user-line name server w),
      omega arith,
    )

abbrev after_loop : ℕ → ℕ → M Page (Unit {0})
after_loop failed size = do
  report_deleted failed size
  update (λ (p : Page). record p { selected_users = [] })
  fetch_users

after_loop-lines :
    (failed size : ℕ) (server : Server) (w : World Page)
    → ((after_loop failed size server w).0 ≡ ok tt)
      × (lines (after_loop failed size server w).1.sent ≡ (get, "/api/users") ∷ lines w.sent)
unfolding fetch_users
after_loop-lines failed size server w = ground arith

delete_selected-lines :
    (names : List String) (server : Server) (w : World Page)
    → ((delete_selected names server w).0 ≡ ok tt)
      × (lines (delete_selected names server w).1.sent
          ≡ (get, "/api/users") ∷ push_all (map delete_line names) (lines w.sent))
unfolding delete_selected
delete_selected-lines names server w =
    let w₁ : World Page = record w { ui = record w.ui { modal = closed } } in
    let (n, w', looped, sent, _) = delete_each-returns names server w₁ in
    let (returned, last) = after_loop-lines n (length names) server w' in
    rw looped (returned, last ∙ ap ((get, "/api/users") ∷◌) sent)

-- Confirming the removal of the selection returns. It is deleted if no selected user is in more than
-- one inbound: one DELETE for each, in order and whatever the server answers, and then the list is
-- read again. Otherwise nothing is sent.
pub confirm_delete_selected-lines :
    (s : Page) (server : Server) (w : World Page)
    → ((confirm_delete_selected s server w).0 ≡ ok tt)
      × (lines (confirm_delete_selected s server w).1.sent ≡ (
          if any (in_many_inbounds s.users) s.selected_users
          then lines w.sent
          else (get, "/api/users") ∷ push_all (map delete_line s.selected_users) (lines w.sent)))
unfolding confirm_delete_selected
confirm_delete_selected-lines s server w =
    elim (List-cases (filter (in_many_inbounds s.users) s.selected_users)) [
      | inl nobody ↦
          rw
            (
              nobody,
              confirm_delete_selected,
              any-filter_nil (in_many_inbounds s.users) s.selected_users nobody,
            )
            (let (returned, sent) = delete_selected-lines s.selected_users server w in
              (returned, sent))
      | inr (name, rest, found) ↦
          rw
            (
              found,
              confirm_delete_selected,
              any-filter_cons (in_many_inbounds s.users) s.selected_users found,
            )
            (refl, refl)
    ]
