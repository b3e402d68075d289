-- ===== src/Session.antt =====
-- frontend/src/context/AuthContext.tsx: the login session, and components/ProtectedRoute.tsx.
pub mod Laws
mod Tests
use ogs_swg.Prelude.{
  String, List, [], ◌∷◌, Option, none, some, Bool, true, false, truthy, if◌then◌else◌,
}
use ogs_swg.Runtime.{Session}

-- `!!token`
abbrev pub present : Option String → Bool
present none = false
present (some t) = truthy t

unfoldable pub is_authenticated : Session → Bool
is_authenticated s = present s.token

-- The state that `AuthProvider` starts in, read from the storage.
unfoldable pub mount : Option String → Session
mount stored = record { stored = stored; token = stored }

-- The effect that runs when the token changed.
unfoldable pub store_token : Session → Session
store_token s = record s { stored = if present s.token then s.token else none }

-- `setToken` with the rendering that follows.
unfoldable pub set_token : Option String → Session → Session
unfolding store_token
set_token t s = store_token (record s { token = t })

-- `logout`, which is what the listener on `auth:unauthorized` calls.
unfoldable pub logout : Session → Session
logout s = record s { token = none; stored = none }

-- The outcome of the route guard: the page, or the login page.
pub data View : Type 0 where
  outlet to_login : View

unfoldable pub protected_route : Session → View
unfolding is_authenticated
protected_route s = if is_authenticated s then outlet else to_login
