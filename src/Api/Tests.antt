-- ===== src/Api/Tests.antt =====
-- Examples for the client (frontend/src/api.ts).
use ogs_swg.Prelude.{ℕ, ◌≡◌, refl}
use ogs_swg.Wire.{other_json}
use ogs_swg.Runtime.{World}
use ogs_swg.Api.Users
use ogs_swg.Api.Endpoint.{Endpoint, run}
use ogs_swg.Api.Results.{Blocked, SendsOne, Answered, session_after}
use ogs_swg.Api.Laws.{run-unauthorized, run-SendsOne, run-Answered, run-session}
use ogs_swg.Api.Fixtures.{answer, constant, accepting, signed_in, world}

abbrev idle : World ℕ
idle = world 0

-- The user is removed while the server rejects the token.
run-unauthorized_example :
    Blocked idle (run (Endpoint.delete_user "ann") (constant 401 (other_json "")) idle)
run-unauthorized_example =
    run-unauthorized (constant 401 (other_json "")) idle (Endpoint.delete_user "ann") (λ e. cc)
      (λ req. (answer 401 (other_json ""), refl, refl))

run-SendsOne_example : SendsOne idle (run (Endpoint.delete_user "ann") accepting idle)
run-SendsOne_example = run-SendsOne accepting idle (Endpoint.delete_user "ann")

run-Answered_example : Answered accepting idle (run (Endpoint.delete_user "ann") accepting idle).1
unfolding run Users.delete_user
run-Answered_example = run-Answered accepting idle (Endpoint.delete_user "ann") refl

-- The removal that is refused ends the session; `getUsers` would not.
run-session_example :
    let r = run (Endpoint.delete_user "ann") (constant 401 (other_json "")) idle in
    r.1.session ≡ session_after (constant 401 (other_json "") r.1.sent) signed_in
run-session_example = run-session (constant 401 (other_json "")) idle (Endpoint.delete_user "ann")

session_test : (run Endpoint.get_users (constant 401 (other_json "")) idle).1.session ≡ signed_in
unfolding run Users.get_users
session_test = refl
