-- ===== src/Login.antt =====
-- frontend/src/components/Login.tsx, and `login` of frontend/src/context/AuthContext.tsx.
-- Of the address the model keeps whether the page has left for the dashboard.
pub mod Laws
mod Tests
use ogs_swg.Prelude.{String, [], ◌∷◌, Option, none, some, Bool, true, false, not, if◌then◌else◌}
use ogs_swg.Wire.{post, fields, Payload, token}
use ogs_swg.Runtime.{M, ◌>>=◌, ◌>>◌, ok, update, throw_error, try_catch, skip}
use ogs_swg.Session
use ogs_swg.Api.{build_headers, json_type, fetch, is_ok, parse}

pub record Form : Type 0 where
  pub username : String
  pub password : String
  pub error : String
  pub loading : Bool
  pub left : Bool

abbrev pub start : Form
start = record { username = ""; password = ""; error = ""; loading = false; left = false }

abbrev pub as_token : Payload → Option (Option String)
as_token (token t) = some t
as_token _ = none

module _ {S : Type 0} where
  -- `setToken(data.token)`, with the rendering that follows.
  abbrev pub keep_token : Option String → M S (Unit {0})
  keep_token t server w = (ok tt, record w { session = Session.set_token t w.session })

  -- This call makes its headers itself, and sends no token.
  unfoldable pub login : String → String → M S (Unit {0})
  unfolding build_headers
  login username pass = do
    res ← fetch (record {
      method = post;
      url = "/api/login";
      headers = build_headers json_type none;
      body = fields (("username", some username) ∷ ("password", some pass) ∷ []);
    })
    (if not (is_ok res) then throw_error "Login failed" else skip)
    answered ← parse (as_token res.json)
    keep_token answered

-- `handleSubmit`
unfoldable pub handle_submit : Form → M Form (Unit {0})
unfolding login
handle_submit s = do
  update (λ p. record p { error = ""; loading = true })
  try_catch (do login s.username s.password; update (λ p. record p { left = true }))
      (λ err. update (λ p. record p { error = "Invalid credentials" }))
  update (λ p. record p { loading = false })
