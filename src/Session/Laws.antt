-- ===== src/Session/Laws.antt =====
-- frontend/src/context/AuthContext.tsx: the events of a session, in the page and in the storage.
use ogs_swg.Prelude.{
  String, List, [], ◌∷◌, Option, none, some, ◌≡◌, refl, ◌≢◌, ◌↔◌, if◌then◌else◌, arith, Bool-cases,
  inl, inr, truthy,
}
use ogs_swg.Runtime.{Session}
use ogs_swg.Session.{present, mount, store_token, set_token, logout, protected_route, outlet}
use ogs_swg.Api.{bearer_header}

-- What happens to a session: a login with the token that the server gave, `logout`, and the event
-- `auth:unauthorized`.
pub data Event : Type 0 where
  signed_in : Option String → Event
  signed_out unauthorized : Event

abbrev pub step : Event → Session → Session
step (signed_in t) s = set_token t s
step signed_out s = logout s
step unauthorized s = logout s

abbrev pub steps : List Event → Session → Session
steps [] s = s
steps (e ∷ es) s = steps es (step e s)

abbrev pub Agrees : Session → Type 0
Agrees s = s.stored ≡ (if present s.token then s.token else none)

pub mount-Agrees : (stored : Option String) → Agrees (store_token (mount stored))
unfolding mount store_token
mount-Agrees stored = refl

pub step-Agrees : (e : Event) (s : Session) → Agrees s → Agrees (step e s)
unfolding set_token logout
step-Agrees (signed_in t) s h = refl
step-Agrees signed_out s h = refl
step-Agrees unauthorized s h = refl

steps-Agrees : (es : List Event) (s : Session) → Agrees s → Agrees (steps es s)
steps-Agrees [] s h = h
steps-Agrees (e ∷ es) s h = steps-Agrees es (step e s) (step-Agrees e s h)

outlet-bearer :
    (stored token : Option String)
    → stored ≡ (if present token then token else none)
    → (protected_route (record { stored = stored; token = token }) ≡ outlet)
      ↔ (bearer_header stored ≢ [])
unfolding protected_route
outlet-bearer stored none h = ground arith
outlet-bearer stored (some t) h = elim (Bool-cases (truthy t)) [
  | inl full ↦ ground arith
  | inr empty ↦ ground arith
]

-- After any events since the page was loaded, the protected pages are shown exactly while the
-- requests carry a token.
pub protected_route-bearer :
    (stored : Option String) (es : List Event)
    → (protected_route (steps es (store_token (mount stored))) ≡ outlet)
      ↔ (bearer_header (steps es (store_token (mount stored))).stored ≢ [])
protected_route-bearer stored es =
    outlet-bearer _ _ (steps-Agrees es (store_token (mount stored)) (mount-Agrees stored))
