-- ===== src/Runtime.antt =====
-- What runs around the source: the browser's storage, the network and the thrown errors.
-- A handler runs on the world that it shares with the rest of the page: the state of its component,
-- the session, the requests sent so far and the messages shown. The server is an argument, and
-- answers a request by all that it has seen; so it stands for any server with any state.
use ogs_swg.Prelude.{String, List, [], ◌∷◌, Option, concat}
use ogs_swg.Wire.{Request, Reply}

-- `Error`: `String(err)` is the name, a colon and the message.
pub record Exception : Type 0 where
  pub name : String
  pub message : String

pub data Outcome (A : Type 0) : Type 0 where
  ok : A → Outcome A
  throws : Exception → Outcome A

-- The calls of `success`, `error` and `alert`.
pub data Notice : Type 0 where
  success error alert : String → Notice

-- The token in `localStorage`, and the one in the state of `AuthProvider`.
pub record Session : Type 0 where
  pub stored : Option String
  pub token : Option String

-- The newest request and the newest message stand first.
pub record World (S : Type 0) : Type 0 where
  pub ui : S
  pub session : Session
  pub sent : List Request
  pub notices : List Notice

abbrev pub Server : Type 0
Server = List Request → Reply

abbrev pub M : Type 0 → Type 0 → Type 0
M S A = Server → World S → Outcome A × World S

abbrev pub bind_outcome :
    {S A B : Type 0} → Outcome A × World S → (A → M S B) → Server → Outcome B × World S
bind_outcome (ok a, w) f v = f a v w
bind_outcome (throws e, w) f v = (throws e, w)

infixl 5 ◌>>=◌ ◌>>◌
abbrev pub ◌>>=◌ : {S A B : Type 0} → M S A → (A → M S B) → M S B
◌>>=◌ m f v w = bind_outcome (m v w) f v

abbrev pub ◌>>◌ : {S A B : Type 0} → M S A → M S B → M S B
◌>>◌ m k v w = bind_outcome (m v w) (λ _. k) v

-- `catch`: what the failed block did to the world stays done.
abbrev pub catch_outcome :
    {S A : Type 0} → Outcome A × World S → (Exception → M S A) → Server → Outcome A × World S
catch_outcome (ok a, w) h v = (ok a, w)
catch_outcome (throws e, w) h v = h e v w

abbrev pub try_catch : {S A : Type 0} → M S A → (Exception → M S A) → M S A
try_catch m h v w = catch_outcome (m v w) h v

abbrev pub throw : {S A : Type 0} → Exception → M S A
throw e v w = (throws e, w)

-- `throw new Error(message)`
abbrev pub throw_error : {S A : Type 0} → String → M S A
throw_error message = throw (record { name = "Error"; message = message })

-- A call of a state setter.
abbrev pub update : {S : Type 0} → (S → S) → M S (Unit {0})
update f v w = (ok tt, record w { ui = f w.ui })

abbrev pub notify : {S : Type 0} → Notice → M S (Unit {0})
notify n v w = (ok tt, record w { notices = n ∷ w.notices })

abbrev pub skip : {S : Type 0} → M S (Unit {0})
skip v w = (ok tt, w)

-- `String(err)`
abbrev pub show_exception : Exception → String
show_exception e = concat (e.name ∷ ": " ∷ e.message ∷ [])

-- A `for` loop over a list whose body awaits.
unfoldable pub for_each : {S A : Type 0} → List A → (A → M S (Unit {0})) → M S (Unit {0})
for_each [] f = skip
for_each (x ∷ xs) f = f x >> for_each xs f

abbrev pub return : {S A : Type 0} → A → M S A
return a v w = (ok a, w)
