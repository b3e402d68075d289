-- ===== src/Session/Tests.antt =====
-- Examples for the login session (frontend/src/context/AuthContext.tsx).
use ogs_swg.Prelude.{[], ◌∷◌, some, ◌≡◌, ◌≢◌, ◌↔◌}
use ogs_swg.Session.{mount, store_token, protected_route, outlet}
use ogs_swg.Session.Laws.{signed_in, unauthorized, steps, protected_route-bearer}
use ogs_swg.Api.{bearer_header}

-- A token from an earlier visit is rejected, and the user logs in again.
protected_route-bearer_example :
    (protected_route
        (steps (unauthorized ∷ signed_in (some "t2") ∷ []) (store_token (mount (some "t1"))))
      ≡ outlet)
    ↔ (bearer_header
          (steps
            (unauthorized ∷ signed_in (some "t2") ∷ [])
            (store_token (mount (some "t1")))).stored
        ≢ [])
protected_route-bearer_example =
    protected_route-bearer (some "t1") (unauthorized ∷ signed_in (some "t2") ∷ [])
