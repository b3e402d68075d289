-- ===== src/Peers/Laws/Sorted.antt =====
-- frontend/src/components/WireGuard.tsx: the order of the peers.
use mathlib.Core.List.{Perm}
use ogs_swg.Prelude.{ℕ, ◌+◌, String, some, false, ◌≡◌, arith, none, ◌≤◌}
use ogs_swg.Prelude.Int.{ℤ, pos_part, neg_part, neg, is_negative}
use ogs_swg.Prelude.Sorting.{IsAsymmetric, AllPairs, sort-AllPairs}
use ogs_swg.Peers.{
  Page, SortKey, by_alias, by_ip, by_endpoint, by_traffic, by_handshake, SortDir, asc, desc,
}
use ogs_swg.Peers.Address.{ip_to_num}
use ogs_swg.Peers.Sort.{
  TextPlatform, compare_texts, compare_peers, sorted_peers, sub_ℤ, endpoint_of, name_of,
}
use ogs_swg.Wire.{WireGuardPeer}

-- What is asked of `localeCompare`: it is total and transitive.
abbrev pub IsNotAfter : TextPlatform → String → String → Type 0
IsNotAfter tp s t = is_negative (tp.locale_compare (tp.lower_case t) (tp.lower_case s)) ≡ false

pub record IsTextOrder (tp : TextPlatform) : Type 0 where
  pub opposite : (s t : String) → tp.locale_compare t s ≡ neg (tp.locale_compare s t)
  pub trans :
      (s t u : String)
      → is_negative (tp.locale_compare t s) ≡ false
      → is_negative (tp.locale_compare u t) ≡ false
      → is_negative (tp.locale_compare u s) ≡ false

-- The bytes that a peer has moved, and its last handshake; a peer without figures has none.
abbrev pub bytes : WireGuardPeer → ℕ
bytes p = elim p.stats [ none ↦ 0 | some st ↦ st.transfer_rx + st.transfer_tx ]

abbrev pub handshake : WireGuardPeer → ℕ
handshake p = elim p.stats [ none ↦ 0 | some st ↦ st.latest_handshake ]

-- `m ≤ n` for integers.
abbrev pub IsAtMost : ℤ → ℤ → Type 0
IsAtMost m n = pos_part m + neg_part n ≤ pos_part n + neg_part m

-- What a column says of a peer that comes before another one in its ascending order.
abbrev pub Ascends : TextPlatform → SortKey → WireGuardPeer → WireGuardPeer → Type 0
Ascends tp by_alias a b = IsNotAfter tp (name_of a) (name_of b)
Ascends tp by_endpoint a b = IsNotAfter tp (endpoint_of a) (endpoint_of b)
Ascends tp by_ip a b = IsAtMost (ip_to_num a.allowed_ips) (ip_to_num b.allowed_ips)
Ascends tp by_traffic a b = bytes a ≤ bytes b
Ascends tp by_handshake a b = handshake a ≤ handshake b

abbrev pub InOrder : TextPlatform → SortKey → SortDir → WireGuardPeer → WireGuardPeer → Type 0
InOrder tp key asc a b = Ascends tp key a b
InOrder tp key desc a b = Ascends tp key b a

sub_ℤ-negative : (m n : ℤ) → is_negative (sub_ℤ m n) ≡ false → IsAtMost n m
sub_ℤ-negative m n h = ground arith

sub_ℤ-opposite : (m n : ℤ) → is_negative (neg (sub_ℤ m n)) ≡ false → IsAtMost m n
sub_ℤ-opposite m n h = ground arith

module _ (tp : TextPlatform) (c : IsTextOrder tp) where
  opposite_texts : (s t : String) → compare_texts tp t s ≡ neg (compare_texts tp s t)
  opposite_texts s t = c.opposite (tp.lower_case s) (tp.lower_case t)

  compare_peers-IsAsymmetric :
      (key : SortKey) (dir : SortDir) → IsAsymmetric (compare_peers tp key dir)
  unfolding compare_peers
  compare_peers-IsAsymmetric by_alias asc a b h =
      ground (arith, opposite_texts (name_of a) (name_of b))
  compare_peers-IsAsymmetric by_alias desc a b h =
      ground (arith, opposite_texts (name_of a) (name_of b))
  compare_peers-IsAsymmetric by_endpoint asc a b h =
      ground (arith, opposite_texts (endpoint_of a) (endpoint_of b))
  compare_peers-IsAsymmetric by_endpoint desc a b h =
      ground (arith, opposite_texts (endpoint_of a) (endpoint_of b))
  compare_peers-IsAsymmetric by_ip asc a b h = ground arith
  compare_peers-IsAsymmetric by_ip desc a b h = ground arith
  compare_peers-IsAsymmetric by_traffic asc a b h = ground arith
  compare_peers-IsAsymmetric by_traffic desc a b h = ground arith
  compare_peers-IsAsymmetric by_handshake asc a b h = ground arith
  compare_peers-IsAsymmetric by_handshake desc a b h = ground arith

  compare_peers-InOrder :
      (key : SortKey) (dir : SortDir) (a b : WireGuardPeer)
      → is_negative (compare_peers tp key dir b a) ≡ false
      → InOrder tp key dir a b
  unfolding compare_peers
  compare_peers-InOrder by_alias asc a b h = h
  compare_peers-InOrder by_alias desc a b h = rw (opposite_texts (name_of b) (name_of a)) h
  compare_peers-InOrder by_endpoint asc a b h = h
  compare_peers-InOrder by_endpoint desc a b h =
      rw (opposite_texts (endpoint_of b) (endpoint_of a)) h
  compare_peers-InOrder by_ip asc a b h =
      sub_ℤ-negative (ip_to_num b.allowed_ips) (ip_to_num a.allowed_ips) h
  compare_peers-InOrder by_ip desc a b h =
      sub_ℤ-opposite (ip_to_num b.allowed_ips) (ip_to_num a.allowed_ips) h
  compare_peers-InOrder by_traffic asc a b h = ground arith
  compare_peers-InOrder by_traffic desc a b h = ground arith
  compare_peers-InOrder by_handshake asc a b h = ground arith
  compare_peers-InOrder by_handshake desc a b h = ground arith

  Ascends-trans :
      (key : SortKey) (x y z : WireGuardPeer)
      → Ascends tp key x y
      → Ascends tp key y z
      → Ascends tp key x z
  Ascends-trans by_alias x y z h h' =
      c.trans (tp.lower_case (name_of x)) (tp.lower_case (name_of y)) (tp.lower_case (name_of z)) h
        h'
  Ascends-trans by_endpoint x y z h h' =
      c.trans (tp.lower_case (endpoint_of x)) (tp.lower_case (endpoint_of y))
        (tp.lower_case (endpoint_of z)) h h'
  Ascends-trans by_ip x y z h h' = omega arith
  Ascends-trans by_traffic x y z h h' = omega arith
  Ascends-trans by_handshake x y z h h' = omega arith

  InOrder-trans :
      (key : SortKey) (dir : SortDir) (x y z : WireGuardPeer)
      → InOrder tp key dir x y
      → InOrder tp key dir y z
      → InOrder tp key dir x z
  InOrder-trans key asc x y z h h' = Ascends-trans key x y z h h'
  InOrder-trans key desc x y z h h' = Ascends-trans key z y x h' h

-- If `localeCompare` is a total and transitive order, the page lists each peer as often as the server
-- does, and all of them in the direction and by the column that are chosen: by name or endpoint in
-- the order of texts of one case, by the number of the address, by the bytes moved, or by the last
-- handshake.
pub sorted_peers-AllPairs :
    (tp : TextPlatform) (p : Page)
    → IsTextOrder tp
    → Perm (sorted_peers tp p) p.peers
      × AllPairs (InOrder tp p.sort_key p.sort_dir) (sorted_peers tp p)
unfolding sorted_peers
sorted_peers-AllPairs tp p c =
    sort-AllPairs (compare_peers tp p.sort_key p.sort_dir) (InOrder tp p.sort_key p.sort_dir)
      (compare_peers-InOrder tp c p.sort_key p.sort_dir) (InOrder-trans tp c p.sort_key p.sort_dir)
      p.peers (compare_peers-IsAsymmetric tp c p.sort_key p.sort_dir)
