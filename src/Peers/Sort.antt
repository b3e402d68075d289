-- ===== src/Peers/Sort.antt =====
-- frontend/src/components/WireGuard.tsx: the order of the peers. `localeCompare` and `toLowerCase` are
-- arguments, since the names and endpoints are any texts.
use ogs_swg.Prelude.{
  ℕ, ◌+◌, String, List, none, some, Bool, true, false, or_default, or_text, if◌then◌else◌,
}
use ogs_swg.Prelude.Int.{ℤ, pos_part, neg_part, sub_ℕ, neg}
use ogs_swg.Prelude.Sorting.{sort}
use ogs_swg.Wire.{WireGuardPeer}
use ogs_swg.Peers.{
  Page, SortKey, by_alias, by_ip, by_endpoint, by_traffic, by_handshake, SortDir, asc, desc,
}
use ogs_swg.Peers.Address.{ip_to_num}

pub record TextPlatform : Type 0 where
  pub locale_compare : String → String → ℤ
  pub lower_case : String → String

abbrev directed : SortDir → ℤ → ℤ
directed asc d = d
directed desc d = neg d

abbrev pub endpoint_of : WireGuardPeer → String
endpoint_of p = elim p.stats [
  | none ↦ or_default p.endpoint ""
  | some st ↦ or_text st.endpoint (or_default p.endpoint "")
]

abbrev pub traffic_of : WireGuardPeer → ℕ
traffic_of p = elim p.stats [ none ↦ 0 | some st ↦ st.transfer_rx + st.transfer_tx ]

abbrev pub handshake_of : WireGuardPeer → ℕ
handshake_of p = elim p.stats [ none ↦ 0 | some st ↦ st.latest_handshake ]

abbrev pub name_of : WireGuardPeer → String
name_of p = or_default p.alias (or_default p.name "")

abbrev pub sub_ℤ : ℤ → ℤ → ℤ
sub_ℤ a b = sub_ℕ (pos_part a + neg_part b) (neg_part a + pos_part b)

abbrev pub compare_texts : TextPlatform → String → String → ℤ
compare_texts tp s t = tp.locale_compare (tp.lower_case s) (tp.lower_case t)

unfoldable pub compare_peers : TextPlatform → SortKey → SortDir → WireGuardPeer → WireGuardPeer → ℤ
compare_peers tp by_endpoint dir a b =
    directed dir (compare_texts tp (endpoint_of a) (endpoint_of b))
compare_peers tp by_traffic dir a b = directed dir (sub_ℕ (traffic_of a) (traffic_of b))
compare_peers tp by_handshake dir a b = directed dir (sub_ℕ (handshake_of a) (handshake_of b))
compare_peers tp by_ip dir a b =
    directed dir (sub_ℤ (ip_to_num a.allowed_ips) (ip_to_num b.allowed_ips))
compare_peers tp by_alias dir a b = directed dir (compare_texts tp (name_of a) (name_of b))

unfoldable pub sorted_peers : TextPlatform → Page → List WireGuardPeer
sorted_peers tp p = sort (compare_peers tp p.sort_key p.sort_dir) p.peers

abbrev pub same_key : SortKey → SortKey → Bool
same_key by_alias by_alias = true
same_key by_ip by_ip = true
same_key by_endpoint by_endpoint = true
same_key by_traffic by_traffic = true
same_key by_handshake by_handshake = true
same_key _ _ = false

abbrev flip : SortDir → SortDir
flip asc = desc
flip desc = asc

-- Every other column starts in ascending order here.
unfoldable pub toggle_sort : SortKey → Page → Page
toggle_sort key p =
    if same_key p.sort_key key
    then record p { sort_dir = flip p.sort_dir }
    else record p { sort_key = key; sort_dir = asc }

pub data SortIcon : Type 0 where
  up_down up down : SortIcon

unfoldable pub render_sort_icon : SortKey → Page → SortIcon
render_sort_icon key p =
    if same_key p.sort_key key then elim p.sort_dir [ asc ↦ up | desc ↦ down ] else up_down
