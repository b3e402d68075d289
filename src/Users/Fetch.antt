-- ===== src/Users/Fetch.antt =====
-- frontend/src/components/UserManagement.tsx, `fetchUsers`.
use ogs_swg.Prelude.{◌∷◌, none, ◌≡◌, arith}
use ogs_swg.Wire.{get, no_body}
use ogs_swg.Runtime.{World, Server, ok}
use ogs_swg.Api.Accepted.{request}
use ogs_swg.Users.{Page, fetch_users}

-- Whatever the server answers, `fetchUsers` returns, and has sent one request.
pub fetch_users-sent :
    (server : Server) (w : World Page)
    → ((fetch_users server w).0 ≡ ok tt)
      × ((fetch_users server w).1.sent ≡ request w.session get "/api/users" none no_body ∷ w.sent)
unfolding fetch_users
fetch_users-sent server w = ground arith
