-- ===== src/Api/Fixtures.antt =====
-- Servers for the examples about the client (frontend/src/api.ts) and the pages that use it.
use ogs_swg.Prelude.{ℕ, [], some, refl, arith}
use ogs_swg.Wire.{Response, responds, Payload, other_json}
use ogs_swg.Runtime.{Server, Session, World}
use ogs_swg.Api.Accepted.{AlwaysAccepts}

abbrev pub answer : ℕ → Payload → Response
answer code body = record { status = code; text = ""; json = body }

-- It answers every request in the same way.
abbrev pub constant : ℕ → Payload → Server
constant code body log = responds (answer code body)

abbrev pub accepting : Server
accepting = constant 200 (other_json "{}")

pub accepting-AlwaysAccepts : AlwaysAccepts accepting
accepting-AlwaysAccepts log = (answer 200 (other_json "{}"), refl, omega arith, omega arith)

abbrev pub signed_in : Session
signed_in = record { stored = some "abc"; token = some "abc" }

abbrev pub world : {S : Type 0} → S → World S
world page = record { ui = page; session = signed_in; sent = []; notices = [] }
