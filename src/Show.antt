-- ===== src/Show.antt =====
-- Decimal numbers: `String(n)`, and `parseInt(s, 10)` on a text of digits.
use Prim.Native.Char.{Char, code}
use clever_gate.Prelude.{
  ℕ, zero, suc, ◌+◌, ◌*◌, ◌/◌, ◌%◌, ◌<◌, String, true, Option, none, some, ◌≡◌, refl, ltb,
  if◌then◌else◌, arith, digit_value, truthy, ◌∙◌, ap, Bool-cases, inl, inr, ltb→lt,
}

digit : ℕ → Char
digit zero = "0"
digit (suc zero) = "1"
digit (suc (suc zero)) = "2"
digit (suc (suc (suc zero))) = "3"
digit (suc (suc (suc (suc zero)))) = "4"
digit (suc (suc (suc (suc (suc zero))))) = "5"
digit (suc (suc (suc (suc (suc (suc zero)))))) = "6"
digit (suc (suc (suc (suc (suc (suc (suc zero))))))) = "7"
digit (suc (suc (suc (suc (suc (suc (suc (suc zero)))))))) = "8"
digit (suc (suc (suc (suc (suc (suc (suc (suc (suc n))))))))) = "9"

digit_value-digit : (d : ℕ) → d < 10 → digit_value (code (digit d)) ≡ some d
unfolding digit
digit_value-digit zero h = refl
digit_value-digit (suc zero) h = refl
digit_value-digit (suc (suc zero)) h = refl
digit_value-digit (suc (suc (suc zero))) h = refl
digit_value-digit (suc (suc (suc (suc zero)))) h = refl
digit_value-digit (suc (suc (suc (suc (suc zero))))) h = refl
digit_value-digit (suc (suc (suc (suc (suc (suc zero)))))) h = refl
digit_value-digit (suc (suc (suc (suc (suc (suc (suc zero))))))) h = refl
digit_value-digit (suc (suc (suc (suc (suc (suc (suc (suc zero)))))))) h = refl
digit_value-digit (suc (suc (suc (suc (suc (suc (suc (suc (suc n))))))))) h =
    ap some (let e : 9 ≡ suc (suc (suc (suc (suc (suc (suc (suc (suc n)))))))) = omega arith in e)

-- The digits of a number in front of a text, the last digit first.
show_fuel : ℕ → ℕ → String → String
show_fuel zero n tail = tail
show_fuel (suc f) n tail =
    let last = String.◌∷◌ (digit n) tail in
    let more = show_fuel f (n / 10) (String.◌∷◌ (digit (n % 10)) tail) in
    if ltb n 10 then last else more

-- `String(n)`. A number has fewer digits than `n + 1`.
unfoldable pub show_nat : ℕ → String
unfolding show_fuel digit
show_nat n = show_fuel (suc n) n ""

-- The number of a text of digits, read on from the value of those already read.
unfoldable pub digits_from : ℕ → String → Option ℕ
digits_from acc String.[] = some acc
digits_from acc (String.◌∷◌ c s) = elim (digit_value (code c)) [
  | none ↦ none
  | some d ↦ digits_from (acc * 10 + d) s
]

-- The text matches `\d+`, and `parseInt` of it.
unfoldable pub parse_digits : String → Option ℕ
unfolding digits_from
parse_digits String.[] = none
parse_digits s = digits_from 0 s

digits_from-digit :
    (acc d : ℕ) (s : String)
    → d < 10
    → digits_from acc (String.◌∷◌ (digit d) s) ≡ digits_from (acc * 10 + d) s
unfolding digits_from
digits_from-digit acc d s h = rw (digit_value-digit d h, digits_from)

digits_from-show_fuel :
    (f n : ℕ) (tail : String) → n < f → digits_from 0 (show_fuel f n tail) ≡ digits_from n tail
unfolding show_fuel
digits_from-show_fuel zero n tail h = absurd (omega arith)
digits_from-show_fuel (suc f) n tail h = elim (Bool-cases (ltb n 10)) [
  | inl small ↦ rw small (
      digits_from-digit 0 n tail (ltb→lt n 10 small)
      ∙ ap (λ k. digits_from k tail) {x = 0 * 10 + n} {y = n} (omega arith))
  | inr large ↦ rw large (
      digits_from-show_fuel f (n / 10) (String.◌∷◌ (digit (n % 10)) tail) (ground arith)
      ∙ digits_from-digit (n / 10) (n % 10) tail (omega arith)
      ∙ ap (λ k. digits_from k tail) {x = n / 10 * 10 + n % 10} {y = n} (omega arith))
]

truthy-show_fuel :
    (f n : ℕ) (tail : String) → truthy tail ≡ true → truthy (show_fuel f n tail) ≡ true
unfolding show_fuel
truthy-show_fuel zero n tail h = h
truthy-show_fuel (suc f) n tail h =
    ground (arith, truthy-show_fuel f (n / 10) (String.◌∷◌ (digit (n % 10)) tail) refl)

pub truthy-show_nat : (n : ℕ) → truthy (show_nat n) ≡ true
unfolding show_fuel show_nat
truthy-show_nat n =
    ground (arith, truthy-show_fuel n (n / 10) (String.◌∷◌ (digit (n % 10)) "") refl)

parse_digits_of_truthy : (s : String) → truthy s ≡ true → parse_digits s ≡ digits_from 0 s
unfolding parse_digits
parse_digits_of_truthy String.[] h = cc
parse_digits_of_truthy (String.◌∷◌ c s) h = refl

pub parse_digits-show_nat : (n : ℕ) → parse_digits (show_nat n) ≡ some n
unfolding show_nat digits_from
parse_digits-show_nat n =
    parse_digits_of_truthy (show_nat n) (truthy-show_nat n)
    ∙ digits_from-show_fuel (suc n) n "" (omega arith)
