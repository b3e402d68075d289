-- ===== src/Api/Decoded.antt =====
-- `JSON.parse` in the pages, and answers of frontend/src/api.ts that are used as JSON values.
-- An answer of another shape than a JSON text counts as one that does not parse.
use ogs_swg.Prelude.{String, Option, none}
use ogs_swg.Wire.{Payload, other_json}
use ogs_swg.Runtime.{M, ◌>>=◌, return, throw}
use ogs_swg.Json.{Json, null}
use ogs_swg.Json.Parser
use ogs_swg.Api

-- `JSON.parse(text)`
abbrev pub parse_json : {S : Type 0} → String → M S Json
parse_json t = Api.parse (Parser.parse t)

abbrev pub payload_json : Payload → Option Json
payload_json (other_json t) = Parser.parse t
payload_json _ = none

abbrev pub answered_json : {S : Type 0} → Payload → M S Json
answered_json p = Api.parse (payload_json p)

-- Reading a member of `null` throws.
abbrev pub not_null : {S : Type 0} → Json → M S Json
not_null null = throw (record { name = "TypeError"; message = "Cannot read properties of null" })
not_null v = return v

abbrev pub answered_object : {S : Type 0} → Payload → M S Json
answered_object p = answered_json p >>= not_null
