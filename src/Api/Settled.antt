-- ===== src/Api/Settled.antt =====
-- frontend/src/api.ts: how a call ends, whatever the server answers.
use ogs_swg.Prelude.{
  String, ◌∷◌, Option, none, some, ◌≡◌, refl, ap, ◌∙◌, arith, inl, inr, Bool-cases, ◌==◌, or_text,
  leb, ltb, ◌&&◌, if◌then◌else◌, ◌⊎◌,
}
use ogs_swg.Wire.{Method, Body, Request, Reply, responds, unreachable}
use ogs_swg.Runtime.{
  Exception, Outcome, ok, throws, World, M, Server, Session, bind_outcome, skip, return, ◌>>=◌,
  ◌>>◌,
}
use ogs_swg.Session.{logout}
use ogs_swg.Api.{call, is_ok, parse}
use ogs_swg.Api.Laws.{Reply-cases}
use ogs_swg.Api.Accepted.{request}

-- The one request was sent; but for it and the session the world is as it was.
pub record Settled {S A : Type 0} (m : M S A) (server : Server) (w : World S) (req : Request)
    : Type 0 where
  pub outcome : Outcome A
  pub session : Session
  pub result : m server w ≡ (outcome, record w { session = session; sent = req ∷ w.sent })

pub Outcome-cases :
    {A : Type 0} (o : Outcome A) → ((a : A) × (o ≡ ok a)) ⊎ ((e : Exception) × (o ≡ throws e))
Outcome-cases (ok a) = inl (a, refl)
Outcome-cases (throws e) = inr (e, refl)

-- What is done with an answer reads and changes nothing of the world.
abbrev pub IsPure : {S A B : Type 0} → (A → M S B) → Type 0
IsPure {A} {B} f =
    (a : A) → (o : Outcome B) × ((server : Server) (w : World _) → f a server w ≡ (o, w))

module _ {S : Type 0} (server : Server) (w : World S) where
  pub call-Settled :
      (method : Method) (url : String) (content_type : Option String) (body : Body) (msg : String)
      → Settled
          (call {S = S} method url content_type body msg)
          server
          w
          (request w.session method url content_type body)
  unfolding call
  call-Settled method url content_type body msg =
      elim (Reply-cases (server (request w.session method url content_type body ∷ w.sent))) [
        | inl lost ↦ record {
          outcome = throws (record { name = "TypeError"; message = "Failed to fetch" });
          session = w.session;
          result = ground arith;
        }
        | inr (res, answered) ↦ elim (Bool-cases (res.status == 401)) [
          | inl denied ↦ record {
            outcome = throws (record { name = "Error"; message = "Unauthorized" });
            session = logout w.session;
            result = ground arith;
          }
          | inr known ↦ elim (Bool-cases (is_ok res)) [
            | inl good ↦ record { outcome = ok res; session = w.session; result = ground arith }
            | inr bad ↦ record {
              outcome = throws (record { name = "Error"; message = or_text res.text msg });
              session = w.session;
              result = ground arith;
            }
          ]
        ]
      ]

  bind-pure :
      {A B : Type 0} (o : Outcome A) (u : World S) (f : A → M S B)
      → IsPure f
      → (o' : Outcome B) × (bind_outcome (o, u) f server ≡ (o', u))
  bind-pure (ok a) u f p = ((p a).0, (p a).1 server u)
  bind-pure (throws e) u f p = (throws e, refl)

  pub Settled-bind :
      {A B : Type 0} (m : M S A) (f : A → M S B) (req : Request)
      → IsPure f
      → Settled m server w req
      → Settled (m >>= f) server w req
  Settled-bind m f req p s =
      let (o, same) =
        bind-pure s.outcome (record w { session = s.session; sent = req ∷ w.sent }) f p in
      record {
        outcome = o;
        session = s.session;
        result = ap (λ r. bind_outcome r f server) s.result ∙ same;
      }

module _ {S : Type 0} where
  pub IsPure-skip : {A : Type 0} → IsPure {S = S} {A = A} (λ _. skip)
  IsPure-skip a = (ok tt, λ server w. refl)

  pub IsPure-return : {A B : Type 0} (f : A → B) → IsPure {S = S} (λ a. return (f a))
  IsPure-return f a = (ok (f a), λ server w. refl)

  parse-pure :
      {A : Type 0} (o : Option A)
      → (r : Outcome A) × ((server : Server) (w : World S) → parse o server w ≡ (r, w))
  parse-pure none =
      (throws (record { name = "SyntaxError"; message = "Unexpected token" }), λ server w. refl)
  parse-pure (some a) = (ok a, λ server w. refl)

  pub IsPure-parse : {A B : Type 0} (f : A → Option B) → IsPure {S = S} (λ a. parse (f a))
  IsPure-parse f a = parse-pure (f a)

-- How a call whose answer has no body ends, by the answer.
pub data Verdict : Type 0 where
  accepted denied refused : Verdict

abbrev pub verdict : Reply → Verdict
verdict unreachable = refused
verdict (responds res) =
    if res.status == 401
    then denied
    else if leb 200 res.status && ltb res.status 300
    then accepted
    else refused

abbrev pub asked : {S : Type 0} → World S → Request → World S
asked w req = record w { sent = req ∷ w.sent }

abbrev pub Ending : {S : Type 0} → M S (Unit {0}) → Server → World S → Request → Type 0
Ending m server w req =
    ((verdict (server (req ∷ w.sent)) ≡ accepted) × (m server w ≡ (ok tt, asked w req)))
    ⊎ (((verdict (server (req ∷ w.sent)) ≡ denied)
          × (m server w ≡ (
            throws (record { name = "Error"; message = "Unauthorized" }),
            record (asked w req) { session = logout w.session },
          )))
        ⊎ ((e : Exception) × (verdict (server (req ∷ w.sent)) ≡ refused)
            × (m server w ≡ (throws e, asked w req))))

pub call-Ending :
    {S : Type 0} (server : Server) (w : World S) (method : Method) (url : String)
    (content_type : Option String) (body : Body) (msg : String)
    → Ending
        (call {S = S} method url content_type body msg >> skip)
        server
        w
        (request w.session method url content_type body)
unfolding call
call-Ending server w method url content_type body msg =
    elim (Reply-cases (server (request w.session method url content_type body ∷ w.sent))) [
      | inl lost ↦ inr (
          inr (
            record { name = "TypeError"; message = "Failed to fetch" },
            ground arith,
            ground arith,
          ))
      | inr (res, answered) ↦ elim (Bool-cases (res.status == 401)) [
        | inl code ↦ inr (inl (ground arith, ground arith))
        | inr known ↦ elim (Bool-cases (is_ok res)) [
          | inl good ↦ inl (ground arith, ground arith)
          | inr bad ↦ inr (
              inr (
                record { name = "Error"; message = or_text res.text msg },
                ground arith,
                ground arith,
              ))
        ]
      ]
    ]
