-- ===== src/Peers/Tests.antt =====
-- Examples for the page of peers (frontend/src/components/WireGuard.tsx).
use mathlib.Core.List.{Perm}
use ogs_swg.Prelude.{[], ◌∷◌, ◌++◌, none, some, true, ◌≡◌, refl, arith}
use ogs_swg.Prelude.Int.{pos, is_negative}
use ogs_swg.Wire.{WireGuardPeer}
use ogs_swg.Runtime.{World}
use ogs_swg.Api.Fixtures.{accepting, accepting-AlwaysAccepts, signed_in, world}
use ogs_swg.Peers.{Page, start, by_ip, desc}
use ogs_swg.Peers.Removal.{confirm_delete, handle_restore_peer}
use ogs_swg.Peers.Sort.{TextPlatform, sorted_peers, sub_ℤ}
use ogs_swg.Peers.Laws.{refresh}
use ogs_swg.Peers.Laws.Removal.{confirm_delete-restore, restore_request, delete_request}
use ogs_swg.Peers.Laws.Sorted.{IsTextOrder, InOrder, sorted_peers-AllPairs}
use ogs_swg.Prelude.Sorting.{AllPairs}
use ogs_swg.Peers.Laws.Order.{Octets, num, num-order}

abbrev laptop : WireGuardPeer
laptop = record {
  public_key = "pk1";
  private_key = none;
  allowed_ips = "10.0.0.2/32";
  endpoint = none;
  alias = some "laptop";
  name = none;
  preshared_key = none;
  persistent_keepalive = none;
  stats = none;
}

abbrev phone : WireGuardPeer
phone = record laptop { public_key = "pk2"; allowed_ips = "10.0.0.3/32" }

abbrev page : Page
page = record start {
  peers = laptop ∷ phone ∷ [];
  confirm_delete_peer = some laptop;
  sort_key = by_ip;
  sort_dir = desc;
}

confirm_delete-restore_example :
    let w₁ : World Page = (confirm_delete page accepting (world page)).1 in
    let w₂ : World Page = (handle_restore_peer w₁.ui accepting w₁).1 in
    (w₁.ui.confirm_delete_peer ≡ none)
    × (w₁.ui.last_deleted_peer ≡ some laptop)
    × (w₂.ui.last_deleted_peer ≡ none)
    × (w₂.sent
        ≡ refresh signed_in
          ++ restore_request laptop signed_in
            ∷ (refresh signed_in ++ delete_request laptop signed_in ∷ []))
confirm_delete-restore_example =
    confirm_delete-restore accepting page (world page) laptop accepting-AlwaysAccepts refl

-- All texts compare as equal.
abbrev all_equal : TextPlatform
all_equal = record { locale_compare = λ s t. pos 0; lower_case = λ s. s }

all_equal-IsTextOrder : IsTextOrder all_equal
all_equal-IsTextOrder = record { opposite = λ s t. refl; trans = λ s t u h h'. refl }

sorted_peers-AllPairs_example :
    Perm (sorted_peers all_equal page) page.peers
    × AllPairs (InOrder all_equal by_ip desc) (sorted_peers all_equal page)
sorted_peers-AllPairs_example = sorted_peers-AllPairs all_equal page all_equal-IsTextOrder

abbrev octets_low : Octets
octets_low = record {
  a = 10;
  b = 0;
  c = 0;
  d = 2;
  a_lt = omega arith;
  b_lt = omega arith;
  c_lt = omega arith;
  d_lt = omega arith;
}

abbrev octets_high : Octets
octets_high = record octets_low { a = 192; a_lt = omega arith }

-- 192.0.0.2 comes before 10.0.0.2.
num-order_example : is_negative (sub_ℤ (num octets_high) (num octets_low)) ≡ true
num-order_example = num-order octets_high octets_low
