-- ===== src/Api.antt =====
-- frontend/src/api.ts: the client of the HTTP interface.
-- This file has the helpers that every call goes through; the calls themselves are in the
-- children, by the part of the server that they address.
pub mod Users
pub mod Logs
pub mod Wireguard
pub mod Services
pub mod Singbox
pub mod Stats
pub mod Endpoint
pub mod Results
pub mod Laws
pub mod Accepted
pub mod Settled
pub mod Decoded
pub mod Fixtures
mod Tests
use ogs_swg.Prelude.{
  ℕ, String, List, [], ◌∷◌, ◌++◌, Option, none, some, Bool, ◌&&◌, ltb, leb, ◌==◌, if◌then◌else◌,
  concat, or_text, truthy,
}
use ogs_swg.Wire.{Method, Body, Request, Response, Reply, responds, unreachable, Payload, not_json}
use ogs_swg.Runtime.{
  Exception, Outcome, ok, throws, World, M, ◌>>=◌, ◌>>◌, return, throw, throw_error,
}
use ogs_swg.Session.{logout}
use ogs_swg.Encoding.Decimal.{decimal}

abbrev pub content_type_header : Option String → List (String × String)
content_type_header none = []
content_type_header (some t) = if truthy t then ("Content-Type", t) ∷ [] else []

abbrev pub bearer_header : Option String → List (String × String)
bearer_header none = []
bearer_header (some t) =
    if truthy t then ("Authorization", concat ("Bearer " ∷ t ∷ [])) ∷ [] else []

-- The token is read from the storage at each call.
unfoldable pub build_headers : Option String → Option String → List (String × String)
build_headers content_type stored = content_type_header content_type ++ bearer_header stored

-- `res.ok`
abbrev pub is_ok : Response → Bool
is_ok res = leb 200 res.status && ltb res.status 300

abbrev network_error : Exception
network_error = record { name = "TypeError"; message = "Failed to fetch" }

abbrev pub settle : {S : Type 0} → Reply → World S → Outcome Response × World S
settle (responds res) w = (ok res, w)
settle unreachable w = (throws network_error, w)

module _ {S : Type 0} where
  -- `fetch`: the request goes out, and the server answers or cannot be reached.
  abbrev pub fetch : Request → M S Response
  fetch req server w = settle (server (req ∷ w.sent)) (record w { sent = req ∷ w.sent })

  -- `fetch` with the headers that `buildHeaders` makes.
  unfoldable pub send : Method → String → Option String → Body → M S Response
  unfolding build_headers
  send method url content_type body server w =
      fetch
        (record {
          method = method;
          url = url;
          headers = build_headers content_type w.session.stored;
          body = body;
        })
        server w

  -- The event `auth:unauthorized`, with what its listener does.
  abbrev pub dispatch_unauthorized : M S (Unit {0})
  dispatch_unauthorized server w = (ok tt, record w { session = logout w.session })

  unfoldable pub handle_response : Response → String → M S Response
  unfolding logout
  handle_response res error_msg =
      if res.status == 401
      then dispatch_unauthorized >> throw_error "Unauthorized"
      else if is_ok res
      then return res
      else throw_error (or_text res.text error_msg)

  -- The two lines that the calls have in common.
  unfoldable pub call : Method → String → Option String → Body → String → M S Response
  unfolding send handle_response
  call method url content_type body error_msg = do
    res ← send method url content_type body
    handle_response res error_msg

  -- `res.json()`, where the body is of the type that the call declares; a body of another type
  -- counts as one that does not parse.
  abbrev pub parse : {A : Type 0} → Option A → M S A
  parse none = throw (record { name = "SyntaxError"; message = "Unexpected token" })
  parse (some a) = return a

-- A body of type `any`.
abbrev pub any_json : Payload → Option Payload
any_json not_json = none
any_json p = some p

abbrev pub json_type : Option String
json_type = some "application/json"

abbrev pub text_type : Option String
text_type = some "text/plain"

-- `if (v) params.append(k, v)`, for a text and for a number.
abbrev pub text_param : String → Option String → List (String × String)
text_param k none = []
text_param k (some v) = if truthy v then (k, v) ∷ [] else []

abbrev pub number_param : String → Option ℕ → List (String × String)
number_param k none = []
number_param k (some n) = if n == 0 then [] else (k, decimal n) ∷ []
