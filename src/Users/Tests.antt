-- ===== src/Users/Tests.antt =====
-- Examples for the page of users (frontend/src/components/UserManagement.tsx).
mod Listing
use ogs_swg.Prelude.{
  ℕ, ◌+◌, ◌<◌, ◌≤◌, String, List, [], ◌∷◌, ◌++◌, map, Option, none, some, Bool, true, false, not,
  ◌&&◌, ltb, ◌≡◌, ◌≢◌, refl, arith, has, length, HasNoRepeat, any, trim, to_lower, str_eq,
  if◌then◌else◌,
}
use ogs_swg.Prelude.Int.{ℤ, pos, sub_ℕ, neg, is_negative}
use ogs_swg.Wire.{UserStatus, Inbound, link, get}
use ogs_swg.Runtime.{World, Server, ok}
use ogs_swg.Api.Fixtures.{answer, constant, accepting, accepting-AlwaysAccepts, signed_in, world}
use ogs_swg.Users.{
  Page, Row, start, trojan, start_bulk, qr, by_status, by_usage, asc, desc, create, receive_users,
}
use ogs_swg.Users.Links.Laws.{
  AnswersLink, Waits, link_request, run_link_effect-ends, run_link_effect-loops,
}
use ogs_swg.Users.Links.{run_link_effect, cache_get}
use ogs_swg.Users.Save.{normalize, tags, rows_ok, handle_save_user}
use ogs_swg.Users.Save.Plan.{member_after}
use ogs_swg.Users.Save.Laws.{handle_save_user-membership, handle_save_user-edited}
use ogs_swg.Users.Save.{update_payload}
use ogs_swg.Users.Save.Plan.{sync_requests}
use ogs_swg.Api.Accepted.{request}
use ogs_swg.Api.{json_type}
use ogs_swg.Wire.{put, no_body, user}
use ogs_swg.Users.Save.Guard.{inbound_valid-rows_ok}
use ogs_swg.Users.Rows.{inbound_valid}
use ogs_swg.Users.Removal.{confirm_delete_selected, in_many_inbounds, tags_of}
use ogs_swg.Users.Removal.{handle_remove_from_selected_inbounds}
use ogs_swg.Users.Removal.Inbounds.{handle_remove_from_selected_inbounds-membership}
use ogs_swg.Users.{select_inbounds}
use ogs_swg.Users.Removal.Laws.{confirm_delete_selected-lines, lines, push_all, delete_line}
use ogs_swg.Users.Edit.{handle_edit_click}
use ogs_swg.Users.Edit.Laws.{Shows, handle_edit_click-Shows}

abbrev pub ann : UserStatus
ann = record {
  name = "ann";
  uuid = some "u-1";
  flow = none;
  vmess_security = none;
  vmess_alter_id = none;
  uplink = 1;
  downlink = 2;
  total = 3;
  quota_limit = 2;
  quota_period = "monthly";
  reset_day = 1;
  enabled = some true;
  last_seen = some 1000;
  inbound_tags = some ("in-a" ∷ "in-b" ∷ []);
}

abbrev pub bob : UserStatus
bob = record ann { name = "bob"; total = 9; inbound_tags = some ("in-a" ∷ []) }

abbrev pub inbound : String → Inbound
inbound tag = record { tag = tag; type = some "Trojan" }

abbrev pub page : Page
page = record start {
  users = ann ∷ bob ∷ [];
  inbounds = inbound "in-a" ∷ inbound "in-b" ∷ inbound "in-c" ∷ [];
}

-- Ann is edited, and moves from the first inbound to the third.
abbrev editing : Page
editing = record page {
  user_type = trojan;
  is_editing = true;
  original_name = "ann";
  new_user = record page.new_user { name = "ann"; uuid = "u-1"; enabled = some true };
  original_inbound_tags = "in-a" ∷ "in-b" ∷ [];
  inbound_rows = record { tag = "in-b"; flow = "" } ∷ record { tag = " in-c"; flow = "" } ∷ [];
  modal = create;
}

handle_save_user-membership_example :
    member_after "ann" "in-a" true (handle_save_user "u-2" editing accepting (world editing)).1.sent
    ≡ false
unfolding rows_ok member_after trim
handle_save_user-membership_example =
    handle_save_user-membership accepting "u-2" editing (world editing) "in-a" true
      accepting-AlwaysAccepts refl refl refl refl refl

handle_save_user-edited_example :
    (handle_save_user "u-2" editing accepting (world editing)).1.sent
    ≡ request signed_in get "/api/users" none no_body
      ∷ (sync_requests "u-1" editing (normalize trojan editing.inbound_rows) signed_in
          ++ request signed_in put "/api/users" json_type
              (user (update_payload "u-2" editing (normalize trojan editing.inbound_rows)))
            ∷ [])
unfolding rows_ok trim
handle_save_user-edited_example =
    handle_save_user-edited accepting "u-2" editing (world editing) accepting-AlwaysAccepts refl
      refl refl refl

inbound_valid-rows_ok_example : rows_ok (normalize trojan editing.inbound_rows) ≡ true
unfolding inbound_valid trim to_lower
inbound_valid-rows_ok_example = inbound_valid-rows_ok editing refl

abbrev selecting : Page
selecting = record page { selected_users = "bob" ∷ [] }

confirm_delete_selected-lines_example :
    ((confirm_delete_selected selecting accepting (world selecting)).0 ≡ ok tt)
    × (lines (confirm_delete_selected selecting accepting (world selecting)).1.sent ≡ (
        if any (in_many_inbounds selecting.users) selecting.selected_users
        then []
        else (get, "/api/users") ∷ push_all (map delete_line selecting.selected_users) []))
confirm_delete_selected-lines_example =
    confirm_delete_selected-lines selecting accepting (world selecting)

handle_edit_click-Shows_example : Shows ann (handle_edit_click page ann accepting (world page)).1.ui
handle_edit_click-Shows_example = handle_edit_click-Shows page ann accepting (world page) (λ e. cc)

constant-AnswersLink : (l : Option String) → AnswersLink l (constant 200 (link l))
constant-AnswersLink l log = (answer 200 (link l), refl, omega arith, omega arith, refl)

abbrev showing : World Page
showing = world (record page { modal = qr bob; selected_qr_inbound = "in-a" })

showing-Waits : Waits bob showing
unfolding cache_get
showing-Waits = record { modal = refl; selected = refl; missing = refl }

run_link_effect-ends_example :
    ((run_link_effect 2 (constant 200 (link (some "vless://x"))) showing).0 ≡ ok false)
    × ((run_link_effect 2 (constant 200 (link (some "vless://x"))) showing).1.sent
        ≡ link_request bob showing ∷ [])
    × ((run_link_effect 2 (constant 200 (link (some "vless://x"))) showing).1.ui.qr_link
        ≡ "vless://x")
    × ((run_link_effect 2 (constant 200 (link (some "vless://x"))) showing).1.ui.qr_loading ≡ false)
run_link_effect-ends_example =
    run_link_effect-ends 0 "vless://x" bob (constant 200 (link (some "vless://x"))) showing
      showing-Waits refl (constant-AnswersLink (some "vless://x"))

run_link_effect-loops_example :
    ((run_link_effect 5 (constant 200 (link (some ""))) showing).0 ≡ ok true)
    × (length (run_link_effect 5 (constant 200 (link (some ""))) showing).1.sent ≡ 5)
run_link_effect-loops_example =
    run_link_effect-loops 5 (some "") bob (constant 200 (link (some ""))) showing showing-Waits refl
      (constant-AnswersLink (some ""))

-- Ann is removed from one of her two inbounds.
abbrev removing : Page
removing = record page { modal = select_inbounds ann; selected_inbounds_to_remove = "in-b" ∷ [] }

handle_remove_from_selected_inbounds-membership_example :
    member_after "ann" "in-b" true
      (handle_remove_from_selected_inbounds removing accepting (world removing)).1.sent
    ≡ false
unfolding member_after
handle_remove_from_selected_inbounds-membership_example =
    handle_remove_from_selected_inbounds-membership accepting removing (world removing) ann "in-b"
      true accepting-AlwaysAccepts refl refl
