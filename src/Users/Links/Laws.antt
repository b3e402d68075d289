-- ===== src/Users/Links/Laws.antt =====
-- frontend/src/components/UserManagement.tsx: when the loading of a link comes to an end.
use ogs_swg.Prelude.{
  ℕ, zero, suc, ◌+◌, ◌≤◌, ◌<◌, String, List, [], ◌∷◌, Option, none, some, true, false, ◌≡◌, refl,
  ap, ◌∙◌, arith, eq_refl, truthy, or_default, length, concat,
}
use ogs_swg.Wire.{Request, Response, responds, UserStatus, get, no_body, link}
use ogs_swg.Runtime.{World, Server, ok}
use ogs_swg.Encoding.{encode_uri_component}
use ogs_swg.Api.Accepted.{request}
use ogs_swg.Users.{Page, qr}
use ogs_swg.Users.Links.{
  cache_get, cache_put, request_link, load_for, load_selected, load_link, run_link_effect,
}

pub cache_get-put :
    (tag : String) (l : Option String) (m : List (String × Option String))
    → cache_get tag (cache_put tag l m) ≡ l
unfolding cache_get cache_put
cache_get-put tag l [] = ground (arith, eq_refl tag)
cache_get-put tag l ((t, old) ∷ m) = ground (arith, eq_refl tag, cache_get-put tag l m)

-- The server answers every request with this link.
abbrev pub AnswersLink : Option String → Server → Type 0
AnswersLink l server =
    (log : List Request)
    → (res : Response) × (server log ≡ responds res)
      × (200 ≤ res.status)
      × (res.status < 300)
      × (res.json ≡ link l)

abbrev pub link_request : UserStatus → World Page → Request
link_request u w =
    request w.session get
      (concat (
        "/api/users/"
        ∷ encode_uri_component u.name
        ∷ "/link?inbound="
        ∷ encode_uri_component w.ui.selected_qr_inbound
        ∷ []))
      none no_body

-- The dialog of this user is open, and an inbound is selected that has no link in the cache.
pub record Waits (u : UserStatus) (w : World Page) : Type 0 where
  pub modal : w.ui.modal ≡ qr u
  pub selected : truthy w.ui.selected_qr_inbound ≡ true
  pub missing :
      truthy (or_default (cache_get w.ui.selected_qr_inbound w.ui.qr_link_cache) "") ≡ false

-- The page after the link came.
abbrev pub with_link : Option String → UserStatus → World Page → World Page
with_link l u w = record w {
  ui = record w.ui {
    qr_loading = false;
    qr_error = "";
    qr_link = or_default l "";
    qr_link_cache = cache_put w.ui.selected_qr_inbound l w.ui.qr_link_cache;
  };
  sent = link_request u w ∷ w.sent;
}

request_link-answered :
    (l : Option String) (u : UserStatus) (server : Server) (w : World Page)
    → AnswersLink l server
    → request_link u w.ui.selected_qr_inbound server w ≡ (ok true, with_link l u w)
unfolding request_link
request_link-answered l u server w h =
    let (res, answered, low, high, body) = h (link_request u w ∷ w.sent) in ground arith

load_link-missing :
    (l : Option String) (u : UserStatus) (server : Server) (w : World Page)
    → Waits u w
    → AnswersLink l server
    → load_link server w ≡ (ok true, with_link l u w)
unfolding load_link load_selected
load_link-missing l u server w wait h =
    ap (λ m. load_for m server w) wait.modal
    ∙ rw (wait.selected, wait.missing) (request_link-answered l u server w h)

-- Where the cache has a link for the selected inbound, the effect shows it, sends nothing and is
-- done.
load_link-cached :
    (u : UserStatus) (server : Server) (w : World Page)
    → w.ui.modal ≡ qr u
    → truthy w.ui.selected_qr_inbound ≡ true
    → truthy (or_default (cache_get w.ui.selected_qr_inbound w.ui.qr_link_cache) "") ≡ true
    → load_link server w ≡ (
      ok false,
      record w {
        ui = record w.ui {
          qr_link = or_default (cache_get w.ui.selected_qr_inbound w.ui.qr_link_cache) "";
          qr_error = "";
        };
      },
    )
unfolding load_link load_selected
load_link-cached u server w modal selected cached =
    ap (λ m. load_for m server w) modal ∙ rw (selected, cached)

-- Where the dialog waits for a link, and the server answers every request with one that is not
-- empty, it is asked for once: the effect ends with its second run, and shows the link.
pub run_link_effect-ends :
    (n : ℕ) (l : String) (u : UserStatus) (server : Server) (w : World Page)
    → Waits u w
    → truthy l ≡ true
    → AnswersLink (some l) server
    → ((run_link_effect (suc (suc n)) server w).0 ≡ ok false)
      × ((run_link_effect (suc (suc n)) server w).1.sent ≡ link_request u w ∷ w.sent)
      × ((run_link_effect (suc (suc n)) server w).1.ui.qr_link ≡ l)
      × ((run_link_effect (suc (suc n)) server w).1.ui.qr_loading ≡ false)
unfolding run_link_effect
run_link_effect-ends n l u server w wait full h =
    let w₁ : World Page = with_link (some l) u w in
    let found : cache_get w.ui.selected_qr_inbound w₁.ui.qr_link_cache ≡ some l =
      cache_get-put w.ui.selected_qr_inbound (some l) w.ui.qr_link_cache in
    rw
      (
        load_link-missing (some l) u server w wait h,
        load_link-cached u server w₁ wait.modal wait.selected (rw found (rw full full)),
        found,
      )
      (refl, refl, rw full, refl)

-- Where the dialog waits for a link, and the server answers every request with an empty or missing
-- one, it is never taken from the cache: every run of the effect asks the server again and makes
-- another run due.
pub run_link_effect-loops :
    (n : ℕ) (l : Option String) (u : UserStatus) (server : Server) (w : World Page)
    → Waits u w
    → truthy (or_default l "") ≡ false
    → AnswersLink l server
    → ((run_link_effect n server w).0 ≡ ok true)
      × (length (run_link_effect n server w).1.sent ≡ n + length w.sent)
unfolding run_link_effect
run_link_effect-loops zero l u server w wait empty h = (refl, omega arith)
run_link_effect-loops (suc n) l u server w wait empty h =
    let again : Waits u (with_link l u w) = record {
      modal = wait.modal;
      selected = wait.selected;
      missing = rw cache_get-put empty;
    } in
    let (due, sent) = run_link_effect-loops n l u server (with_link l u w) again empty h in
    rw (load_link-missing l u server w wait h) (due, omega (arith, sent))
