-- ===== src/Singbox/Store.antt =====
-- A server that keeps the configuration of sing-box, as frontend/src/api.ts reads and writes it.
use ogs_swg.Prelude.{
  String, Bool, true, Option, none, some, List, [], ◌∷◌, ◌≡◌, refl, sym, ap, ◌≤◌, ◌<◌, arith,
  str_eq,
}
use ogs_swg.Wire.{
  Method, get, put, Body, no_body, text, Request, Response, Reply, responds, unreachable,
  other_json,
}
use ogs_swg.Runtime.{World, Server, Session, ok}
use ogs_swg.Api.{call, text_type}
use ogs_swg.Api.Singbox.{get_singbox_config, update_singbox_config}
use ogs_swg.Api.Accepted.{AlwaysAccepts, request}
use ogs_swg.Api.Settled.{Settled, Settled-bind, call-Settled, IsPure-skip}

abbrev pub config_url : String
config_url = "/api/singbox/config"

-- The requests that read and that write the configuration.
abbrev pub config_read : Session → Request
config_read s = request s get config_url none no_body

abbrev pub config_write : Session → String → Request
config_write s t = request s put config_url text_type (text t)

abbrev written_by : Method → Body → Option String
written_by put (text t) = some t
written_by _ _ = none

abbrev newer : Bool → Option String → String → String
newer true (some t) old = t
newer _ _ old = old

-- The text that was written last, by the requests sent so far, or the first one.
abbrev pub stored : String → List Request → String
stored first [] = first
stored first (r ∷ log) =
    newer (str_eq r.url config_url) (written_by r.method r.body) (stored first log)

-- A server that accepts every request, and answers with the text that was written last.
abbrev pub Stores : String → Server → Type 0
Stores first server =
    AlwaysAccepts server
    × ((s : Session) (log : List Request) (res : Response)
        → server (config_read s ∷ log) ≡ responds res
        → res.text ≡ stored first log)

module _ (first : String) (server : Server) (h : Stores first server) {S : Type 0}
    (w : World S) where
  abbrev pub after : Request → World S
  after r = record w { sent = r ∷ w.sent }

  pub get_singbox_config-stored :
      get_singbox_config server w ≡ (ok (stored first w.sent), after (config_read w.session))
  unfolding get_singbox_config call
  get_singbox_config-stored =
      let (res, answered, low, high) = h.0 (config_read w.session ∷ w.sent) in
      let same : res.text ≡ stored first w.sent = h.1 w.session w.sent res answered in ground arith

  pub update_singbox_config-stored :
      (t : String) → update_singbox_config t server w ≡ (ok tt, after (config_write w.session t))
  unfolding update_singbox_config call
  update_singbox_config-stored t =
      let (res, answered, low, high) = h.0 (config_write w.session t ∷ w.sent) in ground arith

pub update-Settled :
    {S : Type 0} (t : String) (server : Server) (w : World S)
    → Settled (update_singbox_config t) server w (config_write w.session t)
unfolding update_singbox_config
update-Settled t server w =
    Settled-bind server w _ _ _ IsPure-skip
      (call-Settled server w put config_url text_type (text t) _)

pub read-ok :
    {S : Type 0} (server : Server) (w : World S) (res : Response)
    → server (config_read w.session ∷ w.sent) ≡ responds res
    → 200 ≤ res.status
    → res.status < 300
    → get_singbox_config server w
      ≡ (ok res.text, record w { sent = config_read w.session ∷ w.sent })
unfolding get_singbox_config call
read-ok server w res answered low high = ground arith

-- The server that does nothing else.
abbrev pub storing : String → Server
storing first [] = responds (record { status = 200; text = ""; json = other_json "{}" })
storing first (r ∷ log) =
    responds (record { status = 200; text = stored first log; json = other_json "{}" })

abbrev response_text : Reply → String
response_text (responds res) = res.text
response_text unreachable = ""

pub storing-Stores : (first : String) → Stores first (storing first)
storing-Stores first = (accepts, λ s log res h. sym (ap response_text h))
  where
    accepts : AlwaysAccepts (storing first)
    accepts [] =
        (record { status = 200; text = ""; json = other_json "{}" }, refl, omega arith, omega arith)
    accepts (r ∷ log) = (
      record { status = 200; text = stored first log; json = other_json "{}" },
      refl,
      omega arith,
      omega arith,
    )
