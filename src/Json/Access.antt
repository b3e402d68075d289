-- ===== src/Json/Access.antt =====
-- Reading and writing the parts of a JSON value: `value.key`, `value.key = x`, `Object.keys` and the
-- elements of an array.
use ogs_swg.Prelude.{
  String, Bool, true, false, Option, none, some, List, [], ◌∷◌, ◌≡◌, refl, ap, not, str_eq, truthy,
  ◌==◌, if◌then◌else◌, arith, eq_refl, eq_iff, Bool-cases, inl, inr,
}
use ogs_swg.Json.{
  Json, Elements, Members, null, boolean, number, string, array, object, no_elements, element,
  no_members, member,
}

abbrev pub items : Elements → List Json
items no_elements = []
items (element v vs) = v ∷ items vs

abbrev pub elements : List Json → Elements
elements [] = no_elements
elements (v ∷ vs) = element v (elements vs)

abbrev pub lookup : String → Members → Option Json
lookup key no_members = none
lookup key (member k v ms) = let rest = lookup key ms in if str_eq key k then some v else rest

-- A member that is there keeps its place; a new one comes last.
abbrev pub put : String → Json → Members → Members
put key x no_members = member key x no_members
put key x (member k v ms) =
    let rest = put key x ms in if str_eq key k then member k x ms else member k v rest

-- `Object.keys`
abbrev pub keys : Members → List String
keys no_members = []
keys (member k v ms) = k ∷ keys ms

-- `value.key`, where `none` is `undefined`; also `value?.key`, which is `undefined` for `null`.
abbrev pub field : String → Json → Option Json
field key (object ms) = lookup key ms
field key _ = none

-- `value?.key` for a value that may be `undefined`
abbrev pub field_of : String → Option Json → Option Json
field_of key none = none
field_of key (some v) = field key v

-- `!!value`
abbrev pub is_truthy : Json → Bool
is_truthy null = false
is_truthy (boolean b) = b
is_truthy (number n) = not (n == 0)
is_truthy (string s) = truthy s
is_truthy _ = true

abbrev pub is_set : Option Json → Bool
is_set none = false
is_set (some v) = is_truthy v

-- `delete value.key`
abbrev pub remove : String → Members → Members
remove key no_members = no_members
remove key (member k v ms) =
    let rest = remove key ms in if str_eq key k then rest else member k v rest

-- `value.key = x` in strict mode: `none` where it throws. The new property of an array is no element,
-- so `JSON.stringify` leaves it out.
abbrev pub set_field : String → Json → Json → Option Json
set_field key x (object ms) = some (object (put key x ms))
set_field key x (array vs) = some (array vs)
set_field key x _ = none

pub items-elements : (vs : List Json) → items (elements vs) ≡ vs
items-elements [] = refl
items-elements (v ∷ vs) = ap (λ ws. v ∷ ws) (items-elements vs)

pub lookup-put : (key : String) (x : Json) (ms : Members) → lookup key (put key x ms) ≡ some x
lookup-put key x no_members = rw (eq_refl key)
lookup-put key x (member k v ms) = elim (Bool-cases (str_eq key k)) [
  | inl h ↦ rw h (rw h refl)
  | inr h ↦ rw h (rw h (lookup-put key x ms))
]

-- The other members stay.
pub lookup-put_other :
    (key other : String) (x : Json) (ms : Members)
    → str_eq other key ≡ false
    → lookup other (put key x ms) ≡ lookup other ms
lookup-put_other key other x no_members h = rw h
lookup-put_other key other x (member k v ms) h =
    ground
      (arith, lookup-put_other key other x ms h, eq_iff other k, eq_iff key k, eq_iff other key)

pub lookup-remove : (key : String) (ms : Members) → lookup key (remove key ms) ≡ none
lookup-remove key no_members = refl
lookup-remove key (member k v ms) = elim (Bool-cases (str_eq key k)) [
  | inl h ↦ rw h (lookup-remove key ms)
  | inr h ↦ rw h (rw h (lookup-remove key ms))
]

pub lookup-remove_other :
    (key other : String) (ms : Members)
    → str_eq other key ≡ false
    → lookup other (remove key ms) ≡ lookup other ms
lookup-remove_other key other no_members h = refl
lookup-remove_other key other (member k v ms) h =
    ground
      (arith, lookup-remove_other key other ms h, eq_iff other k, eq_iff key k, eq_iff other key)
