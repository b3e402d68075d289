-- ===== src/Api/Laws.antt =====
-- What every call of the client (frontend/src/api.ts) has in common.
use ogs_swg.Prelude.{
  String, ◌∷◌, Option, none, ◌≡◌, refl, ◌≢◌, ◌⊎◌, inl, inr, or_default, arith, some, Bool, true,
  false, if◌then◌else◌,
}
use ogs_swg.Wire.{Method, Body, Request, Response, Reply, responds, unreachable, get, no_body}
use ogs_swg.Runtime.{ok, World, Server, return, ◌>>=◌}
use ogs_swg.Api.{build_headers, call, send, parse}
use ogs_swg.Api.Users
use ogs_swg.Api.Services
use ogs_swg.Api.Endpoint.{Endpoint, run}
use ogs_swg.Api.Results.{
  AnswersWith, Blocked, SendsOne, IsAnswered, Answered, IsQuiet, IsQuiet-return, IsQuiet-throw,
  IsQuiet-parse, IsQuiet-if, IsQuiet-skip, IsQuiet-bind, Blocked-bind, SendsOne-bind,
  IsAnswered-bind, header, bearer, EndsDenied, EndsDenied-bind, session_after,
}

ruleset quiet =
    (IsQuiet-return, IsQuiet-throw, IsQuiet-parse, IsQuiet-if, IsQuiet-skip, IsQuiet-bind)

module _ {S : Type 0} (server : Server) (w : World S) where
  abbrev request : Method → String → Option String → Body → Request
  request method url content_type body = record {
    method = method;
    url = url;
    headers = build_headers content_type w.session.stored;
    body = body;
  }

pub Reply-cases : (r : Reply) → (r ≡ unreachable) ⊎ ((res : Response) × (r ≡ responds res))
Reply-cases unreachable = inl refl
Reply-cases (responds res) = inr (res, refl)

header-build_headers :
    (content_type stored : Option String)
    → header "Authorization" (build_headers content_type stored) ≡ bearer stored
unfolding build_headers
header-build_headers none none = refl
header-build_headers none (some t) = ground arith
header-build_headers (some c) none = ground arith
header-build_headers (some c) (some t) = ground arith

module _ {S : Type 0} where
  get_public_ip-rest :
      (res : Response)
      → IsQuiet {S = S} (do ip ← parse (Services.as_public_ip res.json); return (or_default ip ""))
  get_public_ip-rest res = IsQuiet-bind _ _ (IsQuiet-parse _) (λ ip. IsQuiet-return _)

  Blocked-call :
      (server : Server) (w : World S) (method : Method) (url : String)
      (content_type : Option String) (body : Body) (msg : String)
      → AnswersWith 401 server w
      → Blocked w (call method url content_type body msg server w)
  unfolding call
  Blocked-call server w method url content_type body msg h =
      let (res, answered, code) = h (request server w method url content_type body) in
      record {
        thrown = ground arith;
        session = ground arith;
        sent = (request server w method url content_type body, ground arith);
      }

  SendsOne-send :
      (server : Server) (w : World S) (method : Method) (url : String)
      (content_type : Option String) (body : Body)
      → SendsOne w (send method url content_type body server w)
  unfolding send
  SendsOne-send server w method url content_type body = record {
    request = request server w method url content_type body;
    content_type = content_type;
    sent = ground arith;
    headers = refl;
    authorization = header-build_headers content_type w.session.stored;
  }

  SendsOne-call :
      (server : Server) (w : World S) (method : Method) (url : String)
      (content_type : Option String) (body : Body) (msg : String)
      → SendsOne w (call method url content_type body msg server w)
  unfolding call
  SendsOne-call server w method url content_type body msg = record {
    request = request server w method url content_type body;
    content_type = content_type;
    sent = ground arith;
    headers = refl;
    authorization = header-build_headers content_type w.session.stored;
  }

  EndsDenied-call :
      (server : Server) (w : World S) (method : Method) (url : String)
      (content_type : Option String) (body : Body) (msg : String)
      → EndsDenied server w (call method url content_type body msg server w)
  unfolding call
  EndsDenied-call server w method url content_type body msg = record { session = ground arith }

  IsAnswered-call :
      (server : Server) (w : World S) (method : Method) (url : String)
      (content_type : Option String) (body : Body) (msg : String)
      → IsAnswered server w (call method url content_type body msg server w)
  unfolding call
  IsAnswered-call server w method url content_type body msg = record {
    proof = λ a e. record {
      request = request server w method url content_type body;
      response = a;
      sent = ground arith;
      answer = ground arith;
      lower = ground arith;
      upper = ground arith;
      session = ground arith;
      ui = ground arith;
      notices = ground arith;
    };
  }

  IsAnswered-get_users :
      (server : Server) (w : World S) → IsAnswered server w (Users.get_users server w)
  unfolding Users.get_users
  IsAnswered-get_users server w =
      let req : Request = request server w get "/api/users" none no_body in
      elim (Reply-cases (server (req ∷ w.sent))) [
        | inl lost ↦ record { proof = λ a e. ground arith }
        | inr (res, answered) ↦ record {
          proof = λ a e. record {
            request = req;
            response = res;
            sent = ground arith;
            answer = answered;
            lower = ground arith;
            upper = ground arith;
            session = ground arith;
            ui = ground arith;
            notices = ground arith;
          };
        }
      ]

-- Every call but `getUsers` that is answered with status 401 throws `Unauthorized` and ends the
-- session, in the page and in the storage.
pub run-unauthorized :
    {S : Type 0} (server : Server) (w : World S) (e : Endpoint)
    → e ≢ Endpoint.get_users
    → AnswersWith 401 server w
    → Blocked w (run e server w)
unfolding run
run-unauthorized server w Endpoint.get_users ne h = absurd (ne refl)
run-unauthorized server w _ ne h = search (Blocked-bind, Blocked-call)

-- Every call sends exactly one request. Its header `Authorization` carries the stored token as a bearer
-- token; where none is stored, or an empty one, it has no such header.
pub run-SendsOne :
    {S : Type 0} (server : Server) (w : World S) (e : Endpoint) → SendsOne w (run e server w)
unfolding run
run-SendsOne server w Endpoint.get_public_ip =
    search (SendsOne-bind, SendsOne-call, get_public_ip-rest, IsQuiet-skip)
run-SendsOne server w _ = search (SendsOne-bind, SendsOne-call, SendsOne-send, quiet) depth 8

run-IsAnswered :
    {S : Type 0} (server : Server) (w : World S) (e : Endpoint)
    → IsAnswered server w (run e server w)
unfolding run
run-IsAnswered server w Endpoint.get_public_ip =
    search (IsAnswered-bind, IsAnswered-call, get_public_ip-rest, IsQuiet-skip)
run-IsAnswered server w Endpoint.get_users =
    IsAnswered-bind server w _ _ (λ _. IsQuiet-skip) (IsAnswered-get_users server w)
run-IsAnswered server w _ = search (IsAnswered-bind, IsAnswered-call, quiet) depth 8

-- A call that returns was answered with a status from 200 to 299, and changed nothing in the page.
pub run-Answered :
    {S : Type 0} (server : Server) (w : World S) (e : Endpoint)
    → (run e server w).0 ≡ ok tt
    → Answered server w (run e server w).1
unfolding run
run-Answered server w e h = (run-IsAnswered server w e).proof tt h

get_users-session :
    {S : Type 0} (server : Server) (w : World S)
    → (run Endpoint.get_users server w).1.session ≡ w.session
unfolding run Users.get_users
get_users-session server w = ground arith

run-EndsDenied :
    {S : Type 0} (server : Server) (w : World S) (e : Endpoint)
    → e ≢ Endpoint.get_users
    → EndsDenied server w (run e server w)
unfolding run
run-EndsDenied server w Endpoint.get_users ne = absurd (ne refl)
run-EndsDenied server w Endpoint.get_public_ip ne =
    search (EndsDenied-bind, EndsDenied-call, get_public_ip-rest, IsQuiet-skip)
run-EndsDenied server w _ ne = search (EndsDenied-bind, EndsDenied-call, quiet) depth 8

abbrev pub is_get_users : Endpoint → Bool
is_get_users Endpoint.get_users = true
is_get_users _ = false

-- Whatever the server answers, a call ends the session, in the page and in the storage, exactly if it
-- is not `getUsers` and its request is answered with status 401; otherwise the session stays.
pub run-session :
    {S : Type 0} (server : Server) (w : World S) (e : Endpoint)
    → let r = run e server w in
      r.1.session
      ≡ (if is_get_users e then w.session else session_after (server r.1.sent) w.session)
run-session server w Endpoint.get_users = get_users-session server w
run-session server w e = (run-EndsDenied server w e (λ h. cc h)).session
