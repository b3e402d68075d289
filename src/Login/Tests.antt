-- ===== src/Login/Tests.antt =====
-- An example for the form of the login (frontend/src/components/Login.tsx).
use ogs_swg.Prelude.{String, [], ◌∷◌, Option, none, some, ◌≡◌, ◌⊎◌, true, false}
use ogs_swg.Wire.{token}
use ogs_swg.Runtime.{Server, ok}
use ogs_swg.Api.Fixtures.{constant, signed_in, world}
use ogs_swg.Login.{Form, start, handle_submit}
use ogs_swg.Login.Laws.{login_request, granted, kept_session, handle_submit-ends}

abbrev filled : Form
filled = record start { username = "root"; password = "secret" }

abbrev granting : Server
granting = constant 200 (token (some "t3"))

handle_submit-ends_example :
    let r = handle_submit filled granting (world filled) in
    let answer = granted (granting (login_request "root" "secret" ∷ [])) in
    (r.0 ≡ ok tt)
    × (r.1.ui.loading ≡ false)
    × (r.1.sent ≡ login_request "root" "secret" ∷ [])
    × (((answer ≡ none)
          × (r.1.ui.error ≡ "Invalid credentials")
          × (r.1.session ≡ signed_in)
          × (r.1.ui.left ≡ false))
        ⊎ ((t : Option String) × (answer ≡ some t)
            × (r.1.session ≡ kept_session t)
            × (r.1.ui.error ≡ "")
            × (r.1.ui.left ≡ true)))
handle_submit-ends_example = handle_submit-ends filled granting (world filled)
