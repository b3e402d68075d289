-- ===== src/Users/Edit/Laws.antt =====
-- frontend/src/components/UserManagement.tsx, `handleEditClick`: the form of a user that is edited.
use ogs_swg.Prelude.{
  String, List, [], ◌∷◌, map, true, ◌≡◌, refl, ◌≢◌, ap, arith, inl, inr, List-cases,
}
use ogs_swg.Wire.{UserStatus, UserInbound, Inbound}
use ogs_swg.Runtime.{World, Server, Outcome, ok, throws, bind_outcome, catch_outcome, update, skip}
use ogs_swg.Api.Users.{get_user_inbounds}
use ogs_swg.Users.{Page, Row, UserType}
use ogs_swg.Users.Removal.{tags_of}
use ogs_swg.Users.Save.{original_tags, tags}
use ogs_swg.Users.Edit.{
  rows_for, open_editor, fill_flow, receive_inbounds, handle_edit_click, detected_type,
}

tags-rows_for :
    (inbounds : List Inbound) (t : UserType) (tag : String) (rest : List String)
    → tags (rows_for inbounds t (tag ∷ rest)) ≡ tag ∷ rest
tags-rows_for inbounds t tag rest = ap (tag ∷◌) (go rest)
  where
    go : (ts : List String) → tags (map (λ tag'. record { tag = tag'; flow = "" }) ts) ≡ ts
    go [] = refl
    go (x ∷ xs) = ap (x ∷◌) (go xs)

fill_flow-tag : (list : List UserInbound) (r : Row) → (fill_flow list r).tag ≡ r.tag
fill_flow-tag list r = ground arith

tags-fill_flow :
    (list : List UserInbound) (rows : List Row) → tags (map (fill_flow list) rows) ≡ tags rows
tags-fill_flow list [] = refl
tags-fill_flow list (r ∷ rows) = cc (fill_flow-tag list r, tags-fill_flow list rows)

tags-receive_inbounds :
    (next : UserType) (list : List UserInbound) (p : Page)
    → tags (receive_inbounds next list p).inbound_rows ≡ tags p.inbound_rows
unfolding receive_inbounds
tags-receive_inbounds next [] p = refl
tags-receive_inbounds next (i ∷ rest) p = ground (arith, tags-fill_flow (i ∷ rest) p.inbound_rows)

-- The page after the form was opened: for an old user, under its name, with a row for each inbound.
pub record Shows (u : UserStatus) (p : Page) : Type 0 where
  pub originals : original_tags p ≡ tags_of u
  pub rows : tags p.inbound_rows ≡ tags_of u
  pub editing : p.is_editing ≡ true
  pub name : p.new_user.name ≡ u.name
  pub original_name : p.original_name ≡ u.name

open_editor-Shows :
    (inbounds : List Inbound) (u : UserStatus) (p : Page)
    → tags_of u ≢ []
    → Shows u (open_editor inbounds u p)
unfolding open_editor
open_editor-Shows inbounds u p ne = elim (List-cases (tags_of u)) [
  | inl nothing ↦ absurd (ne nothing)
  | inr (tag, rest, some_tags) ↦ record {
    originals = rw some_tags (ground arith);
    rows = rw some_tags (tags-rows_for inbounds (detected_type inbounds (tag ∷ rest)) tag rest);
    editing = refl;
    name = refl;
    original_name = refl;
  }
]

receive_inbounds-Shows :
    (next : UserType) (list : List UserInbound) (u : UserStatus) (p : Page)
    → Shows u p
    → Shows u (receive_inbounds next list p)
unfolding receive_inbounds
receive_inbounds-Shows next [] u p h = h
receive_inbounds-Shows next (i ∷ rest) u p h = record {
  originals = h.originals;
  rows = ground (arith, tags-fill_flow (i ∷ rest) p.inbound_rows);
  editing = h.editing;
  name = ground arith;
  original_name = h.original_name;
}

get_user_inbounds-ui :
    (name : String) (server : Server) (w : World Page)
    → (get_user_inbounds name server w).1.ui ≡ w.ui
unfolding get_user_inbounds
get_user_inbounds-ui name server w = ground arith

received :
    (next : UserType) (u : UserStatus) (r : Outcome (List UserInbound) × World Page)
    (server : Server)
    → Shows u r.1.ui
    → Shows u
        (catch_outcome
          (bind_outcome r (λ list. update (receive_inbounds next list)) server)
          (λ err. skip)
          server).1.ui
received next u (ok list, w) server h = receive_inbounds-Shows next list u w.ui h
received next u (throws e, w) server h = h

-- A user in some inbound that is opened for editing is shown with exactly its inbounds, in their
-- order and under its name, whatever the server answers when it is asked for their settings.
pub handle_edit_click-Shows :
    (s : Page) (u : UserStatus) (server : Server) (w : World Page)
    → tags_of u ≢ []
    → Shows u (handle_edit_click s u server w).1.ui
unfolding handle_edit_click
handle_edit_click-Shows s u server w ne =
    let w₁ : World Page = record w { ui = open_editor s.inbounds u w.ui } in
    received (detected_type s.inbounds (tags_of u)) u (get_user_inbounds u.name server w₁) server
      (rw (get_user_inbounds-ui u.name server w₁) (open_editor-Shows s.inbounds u w.ui ne))
