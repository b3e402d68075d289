-- ===== src/Login/Laws.antt =====
-- frontend/src/components/Login.tsx: what a submitted form does to the session.
use ogs_swg.Prelude.{
  String, [], ◌∷◌, Option, none, some, leb, ltb, ◌&&◌, str_eq, if◌then◌else◌, true, false, ◌≡◌,
  refl, ◌⊎◌, inl, inr, arith, Bool-cases, Option-cases,
}
use ogs_swg.Wire.{Request, post, fields, Reply, responds, unreachable}
use ogs_swg.Runtime.{World, Server, Session, ok, throws, Exception}
use ogs_swg.Session
use ogs_swg.Api.{build_headers, is_ok}
use ogs_swg.Api.Laws.{Reply-cases}
use ogs_swg.Login.{Form, as_token, login, handle_submit}

-- The request of a login carries no token.
abbrev pub login_request : String → String → Request
login_request username pass = record {
  method = post;
  url = "/api/login";
  headers = ("Content-Type", "application/json") ∷ [];
  body = fields (("username", some username) ∷ ("password", some pass) ∷ []);
}

-- The token that an answer grants: that of the body, where the status is one from 200 to 299.
abbrev pub granted : Reply → Option (Option String)
granted unreachable = none
granted (responds res) =
    if leb 200 res.status && ltb res.status 300 then as_token res.json else none

-- A token that is given is kept in the page and in the storage; an empty or missing one is not
-- stored.
abbrev pub kept_session : Option String → Session
kept_session none = record { stored = none; token = none }
kept_session (some t) = record { stored = if str_eq t "" then none else some t; token = some t }

set_token-kept_session : (t : Option String) (s : Session) → Session.set_token t s ≡ kept_session t
unfolding Session.set_token
set_token-kept_session none s = refl
set_token-kept_session (some t) s = ground arith

module _ {S : Type 0} (username pass : String) (server : Server) (w : World S) where
  abbrev asked : World S
  asked = record w { sent = login_request username pass ∷ w.sent }

  abbrev answer : Option (Option String)
  answer = granted (server (login_request username pass ∷ w.sent))

  login-cases :
      ((e : Exception) × (answer ≡ none) × (login username pass server w ≡ (throws e, asked)))
      ⊎ ((t : Option String) × (answer ≡ some t)
          × (login username pass server w
              ≡ (ok tt, record asked { session = Session.set_token t w.session })))
  unfolding login build_headers
  login-cases = elim (Reply-cases (server (login_request username pass ∷ w.sent))) [
    | inl lost ↦
        inl (record { name = "TypeError"; message = "Failed to fetch" }, ground arith, ground arith)
    | inr (res, answered) ↦ elim (Bool-cases (is_ok res)) [
      | inr refused ↦
          inl (record { name = "Error"; message = "Login failed" }, ground arith, ground arith)
      | inl accepted ↦ elim (Option-cases (as_token res.json)) [
        | inl bad ↦ inl (
          record { name = "SyntaxError"; message = "Unexpected token" },
          ground arith,
          ground arith,
        )
        | inr (t, good) ↦ inr (t, ground arith, ground arith)
      ]
    ]
  ]

-- A submitted form returns, does not wait any longer, and has sent one request, which carries no
-- token. If the answer grants a token, that is the one of the session, it is stored unless it is
-- empty, and the page is left. After every other answer, or none, the message is set, and the session
-- and the page stay.
pub handle_submit-ends :
    (s : Form) (server : Server) (w : World Form)
    → let r = handle_submit s server w in
      let answer = granted (server (login_request s.username s.password ∷ w.sent)) in
      (r.0 ≡ ok tt)
      × (r.1.ui.loading ≡ false)
      × (r.1.sent ≡ login_request s.username s.password ∷ w.sent)
      × (((answer ≡ none)
            × (r.1.ui.error ≡ "Invalid credentials")
            × (r.1.session ≡ w.session)
            × (r.1.ui.left ≡ w.ui.left))
          ⊎ ((t : Option String) × (answer ≡ some t)
              × (r.1.session ≡ kept_session t)
              × (r.1.ui.error ≡ "")
              × (r.1.ui.left ≡ true)))
unfolding handle_submit
handle_submit-ends s server w =
    elim (login-cases s.username s.password server
      (record w { ui = record w.ui { error = ""; loading = true } })) [
        | inl (e, none_granted, refused) ↦
            rw refused (refl, refl, refl, inl (none_granted, refl, refl, refl))
        | inr (t, given, accepted) ↦
            rw accepted
              (refl, refl, refl, inr (t, given, set_token-kept_session t w.session, refl, refl))
      ]
