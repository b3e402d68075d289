-- ===== src/Encoding/Decimal.antt =====
-- `String(n)` for a whole number.
use ogs_swg.Prelude.{
  ℕ, zero, suc, ◌+◌, ◌-◌, ◌*◌, ◌/◌, ◌%◌, ◌<◌, String, Char, code, ◌≡◌, refl, sym, ap, ◌∙◌, ltb,
  ◌==◌, if◌then◌else◌, arith, Bool-cases, inl, inr, true, table, table-row,
}

unfoldable pub digit : ℕ → Char
digit n =
    if n == 0
    then "0"
    else if n == 1
    then "1"
    else if n == 2
    then "2"
    else if n == 3
    then "3"
    else if n == 4
    then "4"
    else if n == 5
    then "5"
    else if n == 6
    then "6"
    else if n == 7
    then "7"
    else if n == 8
    then "8"
    else "9"

-- The digits of `n` in front of `acc`.
unfoldable pub digits_onto : ℕ → ℕ → String → String
digits_onto zero n acc = acc
digits_onto (suc f) n acc =
    let rest = digits_onto f (n / 10) (String.◌∷◌ (digit (n % 10)) acc) in
    if ltb n 10 then String.◌∷◌ (digit n) acc else rest

unfoldable pub decimal : ℕ → String
unfolding digit digits_onto
decimal n = digits_onto (suc n) n ""

-- The number that a text of digits stands for, behind the digits read so far.
value_from : ℕ → String → ℕ
value_from n String.[] = n
value_from n (String.◌∷◌ c s) = value_from (n * 10 + (code c - 48)) s

digits_ok : table (λ k. code (digit k) - 48 == k) 10 ≡ true
unfolding digit table
digits_ok = refl

pub code-digit : (n : ℕ) → n < 10 → code (digit n) - 48 ≡ n
code-digit n h = ground (arith, table-row (λ k. code (digit k) - 48 == k) 10 n h digits_ok)

value_from-digits_onto :
    (f n : ℕ) (acc : String) → n < f → value_from 0 (digits_onto f n acc) ≡ value_from n acc
unfolding digits_onto value_from
value_from-digits_onto zero n acc h = absurd (omega arith)
value_from-digits_onto (suc f) n acc h = elim (Bool-cases (ltb n 10)) [
  | inl small ↦ rw small (ap (λ k. value_from k acc) (omega (arith, code-digit n (ground arith))))
  | inr large ↦ rw large (
      value_from-digits_onto f (n / 10) (String.◌∷◌ (digit (n % 10)) acc) (ground arith)
      ∙ ap (λ k. value_from k acc) (omega (arith, code-digit (n % 10) (omega arith))))
]

pub decimal_inj : (m n : ℕ) → decimal m ≡ decimal n → m ≡ n
unfolding decimal value_from
decimal_inj m n h =
    sym (value_from-digits_onto (suc m) m "" (omega arith))
    ∙ ap (value_from 0) h
    ∙ value_from-digits_onto (suc n) n "" (omega arith)

decimal_test : decimal 1050 ≡ "1050"
unfolding decimal
decimal_test = refl
