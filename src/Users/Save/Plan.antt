-- ===== src/Users/Save/Plan.antt =====
-- frontend/src/components/UserManagement.tsx, `handleSaveUser`: the two loops over the inbounds
-- against what they are for, the membership of the user in each inbound.
use text.Mathlib.TextLemmas.{append_cancel_left, append_cancel_right}
use ogs_swg.Prelude.{
  ap, String, List, [], ◌∷◌, ◌++◌, Option, none, some, Bool, true, false, ◌&&◌, ◌≡◌, refl, arith,
  str_eq, eq_iff, eq_refl, has, if◌then◌else◌, Bool-cases, inl, inr,
}
use ogs_swg.Wire.{post, put, delete, Request, Body, user, no_body, credentials}
use ogs_swg.Runtime.{Session, skip}
use ogs_swg.Encoding.{encode_uri_component}
use ogs_swg.Encoding.Injective.{encode_uri_component_inj}
use ogs_swg.Api.{json_type}
use ogs_swg.Api.Users.{user_inbound_url}
use ogs_swg.Api.Accepted.{
  request, Sends, Sends-skip, Sends-call, Sends-then, Sends-if, Sends-for_each, collect,
}
use ogs_swg.Users.{Page, Row}
use ogs_swg.Users.Save.{
  row_credentials, row_user, original_tags, drop_tag, put_row, sync_inbounds, tags,
}

-- What a request means for the membership of the user `name` in the inbound `tag`: a DELETE at
-- the address of the two ends it, and a POST of the user with that tag begins it.
abbrev pub is_removal : String → String → Request → Bool
is_removal name tag r = elim r.method [
  | delete ↦ str_eq r.url (user_inbound_url name tag)
  | _ ↦ false
]

abbrev pub has_tag : Option String → String → Bool
has_tag none tag = false
has_tag (some t) tag = str_eq t tag

abbrev pub adds_user : String → String → Body → Bool
adds_user name tag (user u) = str_eq u.name name && has_tag u.inbound_tag tag
adds_user name tag _ = false

abbrev pub is_addition : String → String → Request → Bool
is_addition name tag r = elim r.method [
  | post ↦ str_eq r.url "/api/users" && adds_user name tag r.body
  | _ ↦ false
]

unfoldable pub member_step : String → String → Request → Bool → Bool
member_step name tag r m =
    if is_removal name tag r then false else if is_addition name tag r then true else m

-- The membership after the requests, the newest first.
unfoldable pub member_after : String → String → Bool → List Request → Bool
member_after name tag m [] = m
member_after name tag m (r ∷ older) = member_step name tag r (member_after name tag m older)

module _ (name tag : String) where
  pub member_after-append :
      (m : Bool) (xs ys : List Request)
      → member_after name tag m (xs ++ ys) ≡ member_after name tag (member_after name tag m ys) xs
  unfolding member_after
  member_after-append m [] ys = refl
  member_after-append m (x ∷ xs) ys = ap (member_step name tag x) (member_after-append m xs ys)

-- Two tags of one user have two addresses.
user_inbound_url_inj :
    (name s t : String) → user_inbound_url name s ≡ user_inbound_url name t → s ≡ t
user_inbound_url_inj name s t h = encode_uri_component_inj s t (
    append_cancel_right (encode_uri_component s) (encode_uri_component t) "" (
      append_cancel_left "/inbounds/" _ _ (
        append_cancel_left (encode_uri_component name) _ _
          (append_cancel_left "/api/users/" _ _ h))))

module _ (name tag : String) where
  -- A DELETE for one of the user's inbounds ends the membership in that one.
  pub member_step-removal :
      (session : Session) (t : String) (m : Bool)
      → member_step name tag (request session delete (user_inbound_url name t) none no_body) m
        ≡ (if str_eq t tag then false else m)
  unfolding member_step
  member_step-removal session t m = elim (Bool-cases (str_eq t tag)) [
    | inl same ↦ rw ((eq_iff t tag).0 same, eq_refl) (ground (arith, eq_refl tag))
    | inr other ↦ ground (
      arith,
      eq_iff t tag,
      eq_iff (user_inbound_url name t) (user_inbound_url name tag),
      user_inbound_url_inj name t tag,
    )
  ]
  -- The requests that the two rounds send.

abbrev pub drop_requests : Page → List String → String → Session → List Request
drop_requests s desired t session =
    if has desired t
    then []
    else request session delete (user_inbound_url s.new_user.name t) none no_body ∷ []

abbrev pub put_requests : String → Page → List String → Row → Session → List Request
put_requests uuid s originals row session =
    if has originals row.tag
    then request session put (user_inbound_url s.new_user.name row.tag) json_type
        (credentials (row_credentials uuid s row))
      ∷ []
    else request session post "/api/users" json_type (user (row_user uuid s row)) ∷ []

Sends-drop_tag :
    (s : Page) (desired : List String) (t : String)
    → Sends (drop_tag s desired t) (drop_requests s desired t)
unfolding drop_tag
Sends-drop_tag s desired t =
    Sends-if (has desired t) skip _ _ _ Sends-skip (Sends-call delete _ none no_body _)

Sends-put_row :
    (uuid : String) (s : Page) (originals : List String) (row : Row)
    → Sends (put_row uuid s originals row) (put_requests uuid s originals row)
unfolding put_row
Sends-put_row uuid s originals row =
    Sends-if (has originals row.tag) _ _ _ _ (Sends-call put _ json_type _ _)
      (Sends-call post _ json_type _ _)

abbrev pub sync_requests : String → Page → List Row → Session → List Request
sync_requests uuid s rows session =
    collect (put_requests uuid s (original_tags s)) rows session
    ++ collect (drop_requests s (tags rows)) (original_tags s) session

pub Sends-sync_inbounds :
    (uuid : String) (s : Page) (rows : List Row)
    → Sends (sync_inbounds uuid s rows) (sync_requests uuid s rows)
unfolding sync_inbounds
Sends-sync_inbounds uuid s rows =
    Sends-then _ _ _ _ (Sends-for_each _ _ (Sends-drop_tag s (tags rows)) (original_tags s))
      (Sends-for_each _ _ (Sends-put_row uuid s (original_tags s)) rows)
