-- ===== src/Api/Results.antt =====
-- Properties of one call's result (frontend/src/api.ts), and the rules by which they pass through
-- what a call does with the answer.
use ogs_swg.Prelude.{
  ℕ, String, List, [], ◌∷◌, Option, none, some, Bool, true, false, ◌==◌, concat, str_eq, ◌≡◌, refl,
  ◌≤◌, ◌<◌, arith, if◌then◌else◌,
}
use ogs_swg.Wire.{Request, Response, Reply, responds, unreachable}
use ogs_swg.Runtime.{
  Exception, Outcome, ok, throws, World, M, Server, Session, bind_outcome, throw, skip, return,
}
use ogs_swg.Api.{build_headers, parse}

abbrev pub error : String → Exception
error message = record { name = "Error"; message = message }

abbrev pub logged_out : Session
logged_out = record { stored = none; token = none }

-- The server answers the next request, whatever it is, with this status.
abbrev pub AnswersWith : {S : Type 0} → ℕ → Server → World S → Type 0
AnswersWith code server w =
    (req : Request)
    → (res : Response) × (server (req ∷ w.sent) ≡ responds res) × (res.status ≡ code)

-- A result of a call that was answered with status 401.
pub record Blocked {S A : Type 0} (w : World S) (r : Outcome A × World S) : Type 0 where
  pub thrown : r.0 ≡ throws (error "Unauthorized")
  pub session : r.1.session ≡ logged_out
  pub sent : (req : Request) × (r.1.sent ≡ req ∷ w.sent)

-- The value of a header, and the one that a stored token asks for: an empty token counts as none.
abbrev pub header : String → List (String × String) → Option String
header name [] = none
header name ((k, v) ∷ rest) =
    let later = header name rest in if str_eq k name then some v else later

abbrev pub bearer : Option String → Option String
bearer none = none
bearer (some t) = if str_eq t "" then none else some (concat ("Bearer " ∷ t ∷ []))

-- One request was sent, with the token that the storage held and with no other.
pub record SendsOne {S A : Type 0} (w : World S) (r : Outcome A × World S) : Type 0 where
  pub request : Request
  pub content_type : Option String
  pub sent : r.1.sent ≡ request ∷ w.sent
  pub headers : request.headers ≡ build_headers content_type w.session.stored
  pub authorization : header "Authorization" request.headers ≡ bearer w.session.stored

-- The session is as it was, but that an answer with status 401 has ended it.
abbrev pub is_denied : Reply → Bool
is_denied unreachable = false
is_denied (responds res) = res.status == 401

abbrev pub session_after : Reply → Session → Session
session_after reply s = if is_denied reply then logged_out else s

pub record EndsDenied {S A : Type 0} (server : Server) (w : World S) (r : Outcome A × World S)
    : Type 0 where
  pub session : r.1.session ≡ session_after (server r.1.sent) w.session

-- The request that was sent got an answer with a 2xx status, and nothing else changed.
pub record Answered {S : Type 0} (server : Server) (w w' : World S) : Type 0 where
  pub request : Request
  pub response : Response
  pub sent : w'.sent ≡ request ∷ w.sent
  pub answer : server (request ∷ w.sent) ≡ responds response
  pub lower : 200 ≤ response.status
  pub upper : response.status < 300
  pub session : w'.session ≡ w.session
  pub ui : w'.ui ≡ w.ui
  pub notices : w'.notices ≡ w.notices

-- If the result is a value, the server answered.
pub record IsAnswered {S A : Type 0} (server : Server) (w : World S) (r : Outcome A × World S)
    : Type 0 where
  pub proof : (a : A) → r.0 ≡ ok a → Answered server w r.1

-- An action that leaves the world as it is.
pub record IsQuiet {S A : Type 0} (m : M S A) : Type 0 where
  pub same : (server : Server) (w : World S) → (m server w).1 ≡ w

module _ {S A : Type 0} where
  pub IsQuiet-return : (a : A) → IsQuiet (return {S = S} a)
  IsQuiet-return a = record { same = λ _ _. refl }

  pub IsQuiet-throw : (e : Exception) → IsQuiet (throw {S = S} {A = A} e)
  IsQuiet-throw e = record { same = λ _ _. refl }

  pub IsQuiet-parse : (o : Option A) → IsQuiet (parse {S = S} o)
  IsQuiet-parse o = record { same = λ server w. ground arith }

  pub IsQuiet-if : (b : Bool) (m n : M S A) → IsQuiet m → IsQuiet n → IsQuiet (if b then m else n)
  IsQuiet-if true m n p q = p
  IsQuiet-if false m n p q = q

pub IsQuiet-skip : {S : Type 0} → IsQuiet (skip {S = S})
IsQuiet-skip = record { same = λ _ _. refl }

module _ {S A B : Type 0} where
  pub bind_outcome-quiet :
      (r : Outcome A × World S) (f : A → M S B) (server : Server)
      → ((a : A) → IsQuiet (f a))
      → (bind_outcome r f server).1 ≡ r.1
  bind_outcome-quiet (ok a, w) f server q = (q a).same server w
  bind_outcome-quiet (throws e, w) f server q = refl

  pub IsQuiet-bind :
      (m : M S A) (f : A → M S B)
      → IsQuiet m
      → ((a : A) → IsQuiet (f a))
      → IsQuiet (λ server w. bind_outcome (m server w) f server)
  IsQuiet-bind m f p q = record {
    same = λ server w. cc (bind_outcome-quiet (m server w) f server q, p.same server w);
  }

  pub Blocked-bind :
      (server : Server) (w : World S) (r : Outcome A × World S) (f : A → M S B)
      → Blocked w r
      → Blocked w (bind_outcome r f server)
  Blocked-bind server w (ok a, w') f b = cc b.thrown
  Blocked-bind server w (throws e, w') f b = record {
    thrown = cc b.thrown;
    session = b.session;
    sent = b.sent;
  }

  pub SendsOne-bind :
      (server : Server) (w : World S) (r : Outcome A × World S) (f : A → M S B)
      → ((a : A) → IsQuiet (f a))
      → SendsOne w r
      → SendsOne w (bind_outcome r f server)
  SendsOne-bind server w r f q s = record {
    request = s.request;
    content_type = s.content_type;
    sent = cc (bind_outcome-quiet r f server q, s.sent);
    headers = s.headers;
    authorization = s.authorization;
  }

  pub EndsDenied-bind :
      (server : Server) (w : World S) (r : Outcome A × World S) (f : A → M S B)
      → ((a : A) → IsQuiet (f a))
      → EndsDenied server w r
      → EndsDenied server w (bind_outcome r f server)
  EndsDenied-bind server w r f q s = record {
    session = rw (bind_outcome-quiet r f server q) s.session;
  }

  pub IsAnswered-bind :
      (server : Server) (w : World S) (r : Outcome A × World S) (f : A → M S B)
      → ((a : A) → IsQuiet (f a))
      → IsAnswered server w r
      → IsAnswered server w (bind_outcome r f server)
  IsAnswered-bind server w (ok a, w') f q s = record {
    proof = λ b e. rw ((q a).same server w') (s.proof a refl);
  }
  IsAnswered-bind server w (throws e, w') f q s = record { proof = λ b e'. cc }
