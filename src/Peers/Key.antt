-- ===== src/Peers/Key.antt =====
-- frontend/src/components/WireGuard.tsx: the search for a private key in a configuration, by the
-- regular expression `PrivateKey\s*=\s*([^\s]+)`.
use ogs_swg.Prelude.{
  ◌≡◌, refl, String, Option, none, some, code, is_space, truthy, if◌then◌else◌, ◌==◌,
}

-- The rest of a text after a literal.
abbrev pub after_literal : String → String → Option String
after_literal String.[] s = some s
after_literal (String.◌∷◌ c lit) String.[] = none
after_literal (String.◌∷◌ c lit) (String.◌∷◌ d s) =
    let rest = after_literal lit s in if code c == code d then rest else none

abbrev pub drop_spaces : String → String
drop_spaces String.[] = ""
drop_spaces (String.◌∷◌ c s) =
    let rest = drop_spaces s in if is_space (code c) then rest else String.◌∷◌ c s

-- The characters before the first white space.
abbrev pub take_word : String → String
take_word String.[] = ""
take_word (String.◌∷◌ c s) =
    let rest = take_word s in if is_space (code c) then "" else String.◌∷◌ c rest

abbrev pub word : String → Option String
word s = if truthy (take_word s) then some (take_word s) else none

-- The match at the beginning of a text, and the first one anywhere.
unfoldable pub private_key_at : String → Option String
private_key_at s = elim (after_literal "PrivateKey" s) [
  | none ↦ none
  | some rest ↦ elim (after_literal "=" (drop_spaces rest)) [
    | none ↦ none
    | some value ↦ word (drop_spaces value)
  ]
]

unfoldable pub private_key_in : String → Option String
unfolding private_key_at
private_key_in String.[] = none
private_key_in (String.◌∷◌ c s) =
    let later = private_key_in s in
    elim (private_key_at (String.◌∷◌ c s)) [ none ↦ later | some k ↦ some k ]

key_test : private_key_in "[Interface]\nPrivateKey =  k1= \nAddress" ≡ some "k1="
unfolding private_key_in
key_test = refl
