-- ===== src/Api/Accepted.antt =====
-- What a handler sends while the server accepts every request.
use ogs_swg.Prelude.{
  String, List, [], ◌∷◌, ◌++◌, Option, ◌≡◌, refl, ap, ◌∙◌, ◌≤◌, ◌<◌, arith, append_assoc, sym, Bool,
  true, false, if◌then◌else◌,
}
use ogs_swg.Wire.{Method, Body, Request, Response, responds}
use ogs_swg.Runtime.{ok, World, M, Server, Session, skip, ◌>>◌, for_each}
use ogs_swg.Api.{build_headers, call}

-- Every answer has a status from 200 to 299.
abbrev pub AlwaysAccepts : Server → Type 0
AlwaysAccepts server =
    (log : List Request)
    → (res : Response) × (server log ≡ responds res) × (200 ≤ res.status) × (res.status < 300)

abbrev pub request : Session → Method → String → Option String → Body → Request
request session method url content_type body = record {
  method = method;
  url = url;
  headers = build_headers content_type session.stored;
  body = body;
}

-- Under such a server the action succeeds, and all that it does is to send these requests, the
-- newest first.
pub record Sends {S : Type 0} (m : M S (Unit {0})) (reqs : Session → List Request) : Type 0 where
  pub effect :
      (server : Server)
      → AlwaysAccepts server
      → (w : World S) → m server w ≡ (ok tt, record w { sent = reqs w.session ++ w.sent })

module _ {S : Type 0} where
  pub Sends-skip : Sends {S = S} skip (λ _. [])
  Sends-skip = record { effect = λ server h w. refl }

  pub Sends-call :
      (method : Method) (url : String) (content_type : Option String) (body : Body) (msg : String)
      → Sends {S = S}
          (call method url content_type body msg >> skip)
          (λ s. request s method url content_type body ∷ [])
  unfolding call
  Sends-call method url content_type body msg = record {
    effect = λ server h w.
        let (res, answered, low, high) =
          h (request w.session method url content_type body ∷ w.sent) in
        ground arith;
  }

  pub Sends-then :
      (m n : M S (Unit {0})) (xs ys : Session → List Request)
      → Sends m xs
      → Sends n ys
      → Sends (m >> n) (λ s. ys s ++ xs s)
  Sends-then m n xs ys p q = record {
    effect = λ server h w. rw (p.effect server h w) (
        q.effect server h (record w { sent = xs w.session ++ w.sent })
        ∙ ap (λ l. (ok tt, record w { sent = l }))
            (sym (append_assoc (ys w.session) (xs w.session) w.sent)));
  }

  pub Sends-if :
      (b : Bool) (m n : M S (Unit {0})) (xs ys : Session → List Request)
      → Sends m xs
      → Sends n ys
      → Sends (if b then m else n) (λ s. if b then xs s else ys s)
  Sends-if true m n xs ys p q = p
  Sends-if false m n xs ys p q = q

-- The requests of a loop, the newest first.
abbrev pub collect : {A : Type 0} → (A → Session → List Request) → List A → Session → List Request
collect g [] s = []
collect g (x ∷ xs) s = collect g xs s ++ g x s

pub Sends-for_each :
    {S A : Type 0} (f : A → M S (Unit {0})) (g : A → Session → List Request)
    → ((x : A) → Sends (f x) (g x))
    → (xs : List A) → Sends (for_each xs f) (collect g xs)
unfolding for_each
Sends-for_each f g p [] = Sends-skip
Sends-for_each f g p (x ∷ xs) =
    Sends-then (f x) (for_each xs f) (g x) (collect g xs) (p x) (Sends-for_each f g p xs)
