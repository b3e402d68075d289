-- ===== src/Peers/Laws/Order.antt =====
-- frontend/src/components/WireGuard.tsx: the order of addresses.
use ogs_swg.Prelude.{
  ℕ, ◌+◌, ◌-◌, ◌*◌, ◌^◌, ◌<◌, [], ◌∷◌, some, Bool, true, false, ◌≡◌, refl, arith, ltb,
  if◌then◌else◌, Bool-cases, inl, inr,
}
use ogs_swg.Prelude.Int.{ℤ, pos, negsuc, sub_ℕ, is_negative}
use ogs_swg.Peers.Address.{parts_to_num, shift_left, to_int32}
use ogs_swg.Peers.Sort.{sub_ℤ}

-- An address of four octets, and its value.
pub record Octets : Type 0 where
  pub a : ℕ
  pub b : ℕ
  pub c : ℕ
  pub d : ℕ
  pub a_lt : a < 256
  pub b_lt : b < 256
  pub c_lt : c < 256
  pub d_lt : d < 256

abbrev pub value : Octets → ℕ
value o = o.a * 16777216 + o.b * 65536 + o.c * 256 + o.d

abbrev pub num : Octets → ℤ
num o = parts_to_num (some (pos o.a) ∷ some (pos o.b) ∷ some (pos o.c) ∷ some (pos o.d) ∷ [])

abbrev pub is_high : Octets → Bool
is_high o = ltb 127 o.a

to_int32-low : (n z m : ℕ) → z ≡ 0 → n ≡ m → m < 2147483648 → to_int32 (sub_ℕ n z) ≡ pos m
to_int32-low n z m e e' h = ground arith

to_int32-high :
    (n z m : ℕ)
    → z ≡ 0
    → n ≡ m
    → 2147483647 < m
    → m < 4294967296
    → to_int32 (sub_ℕ n z) ≡ negsuc (4294967295 - m)
to_int32-high n z m e e' h h' = ground arith

shift_left-low : (n k m : ℕ) → n * 2 ^ k ≡ m → m < 2147483648 → shift_left (pos n) k ≡ pos m
unfolding shift_left
shift_left-low n k m e h = to_int32-low (n * 2 ^ k) (0 * 2 ^ k) m (omega arith) e h

shift_left-high :
    (n k m : ℕ)
    → n * 2 ^ k ≡ m
    → 2147483647 < m
    → m < 4294967296
    → shift_left (pos n) k ≡ negsuc (4294967295 - m)
unfolding shift_left
shift_left-high n k m e h h' = to_int32-high (n * 2 ^ k) (0 * 2 ^ k) m (omega arith) e h h'

num-low : (o : Octets) → is_high o ≡ false → num o ≡ pos (value o)
unfolding parts_to_num
num-low o low =
    rw
      (
        shift_left-low o.a 24 (o.a * 16777216) refl (ground arith),
        shift_left-low o.b 16 (o.b * 65536) refl (omega arith),
        shift_left-low o.c 8 (o.c * 256) refl (omega arith),
      )
      (ground arith)

num-high : (o : Octets) → is_high o ≡ true → num o ≡ negsuc (4294967295 - value o)
unfolding parts_to_num
num-high o high =
    rw
      (
        shift_left-high o.a 24 (o.a * 16777216) refl (ground arith) (omega arith),
        shift_left-low o.b 16 (o.b * 65536) refl (omega arith),
        shift_left-low o.c 8 (o.c * 256) refl (omega arith),
      )
      (ground arith)

-- Addresses of four octets compare by their values, but for one whose first octet is above 127: it
-- comes before all those whose first octet is not.
pub num-order :
    (x y : Octets)
    → is_negative (sub_ℤ (num x) (num y)) ≡ (
        if is_high x
        then (if is_high y then ltb (value x) (value y) else true)
        else if is_high y
        then false
        else ltb (value x) (value y))
num-order x y = elim (Bool-cases (is_high x)) [
  | inl hx ↦ elim (Bool-cases (is_high y)) [
    | inl hy ↦ rw (num-high x hx, num-high y hy, hx, hy) (ground arith)
    | inr ly ↦ rw (num-high x hx, num-low y ly, hx, ly) (ground arith)
  ]
  | inr lx ↦ elim (Bool-cases (is_high y)) [
    | inl hy ↦ rw (num-low x lx, num-high y hy, lx, hy) (ground arith)
    | inr ly ↦ rw (num-low x lx, num-low y ly, lx, ly) (ground arith)
  ]
]
