-- ===== src/Providers/Clone/Names.antt =====
-- The name of a duplicate is new, and duplicating a duplicate counts on.
use Prim.Native.Char.{Char, code}
use text.Mathlib.TextLemmas.{nil-append, cons-append}
use clever_gate.Prelude.{
  ℕ, ◌+◌, ◌*◌, String, true, false, Option, none, some, List, [], ◌∷◌, ◌≡◌, ◌≢◌, refl, ap, ◌∙◌,
  arith, is_some, strip_prefix, ◌<>◌, digit_value, Option-cases, inl, inr,
}
use clever_gate.Show.{show_nat, digits_from, parse_digits, parse_digits-show_nat}
use clever_gate.Providers.Clone.{
  cons_number, counter_suffix, strip_counter, counter_of, taken, has, next_counter, clone_name,
}
use clever_gate.Providers.Clone.Counter.{next_counter-IsFirstFree}

-- The text " - " in front of another, character by character.
dash : String → String
dash t = String.◌∷◌ " " (String.◌∷◌ "-" (String.◌∷◌ " " t))

append-dash : (t : String) → " - " <> t ≡ dash t
unfolding dash
append-dash t =
    cons-append " " "- " t
    ∙ ap (String.◌∷◌ " ") (
        cons-append "-" " " t
        ∙ ap (String.◌∷◌ "-") (cons-append " " "" t ∙ ap (String.◌∷◌ " ") (nil-append t)))

strip_prefix-append : (p s : String) → strip_prefix p (p <> s) ≡ some s
unfolding strip_prefix
strip_prefix-append String.[] s = ap some (nil-append s)
strip_prefix-append (String.◌∷◌ c p) s =
    rw (cons-append c p s) (ground (arith, strip_prefix-append p s))

counter_suffix-dash : (n : ℕ) → counter_suffix (dash (show_nat n)) ≡ some n
unfolding counter_suffix dash strip_prefix
counter_suffix-dash n = parse_digits-show_nat n

-- The duplicate's number is read back from its name.
counter_of-clone : (base : String) (n : ℕ) → counter_of base (base <> dash (show_nat n)) ≡ some n
unfolding counter_of
counter_of-clone base n = rw (strip_prefix-append base (dash (show_nat n))) (counter_suffix-dash n)

-- No name of the list.
abbrev pub IsNew : String → List String → Type 0
IsNew name [] = Unit {0}
IsNew name (x ∷ xs) = (x ≢ name) × IsNew name xs

has-cons_number :
    (n : ℕ) (o : Option ℕ) (ns : List ℕ)
    → has n (cons_number o ns) ≡ false
    → (has n ns ≡ false) × (o ≢ some n)
has-cons_number n none ns h = (h, λ e. cc)
has-cons_number n (some k) ns h = (ground arith, λ e. ground arith)

taken-IsNew :
    (base : String) (n : ℕ) (names : List String)
    → has n (taken base names) ≡ false
    → IsNew (base <> dash (show_nat n)) names
unfolding taken
taken-IsNew base n [] h = tt
taken-IsNew base n (x ∷ xs) h =
    let (later, differs) = has-cons_number n (counter_of base x) (taken base xs) h in
    (λ e. differs (ap (counter_of base) e ∙ counter_of-clone base n), taken-IsNew base n xs later)

-- The name of a duplicate is none of the names that are loaded.
pub clone_name-IsNew : (names : List String) (name : String) → IsNew (clone_name names name) names
unfolding clone_name
clone_name-IsNew names name =
    let base = strip_counter name in
    let n = next_counter (taken base names) in
    rw (append-dash (show_nat n))
      (taken-IsNew base n names (next_counter-IsFirstFree (taken base names)).free)

-- A text with a character that is no digit is no number.
digits_from_stop :
    (acc : ℕ) (s : String) (c : Char) (t : String)
    → digit_value (code c) ≡ none
    → digits_from acc (s <> String.◌∷◌ c t) ≡ none
unfolding digits_from
digits_from_stop acc String.[] c t h = rw (nil-append (String.◌∷◌ c t), h, digits_from)
digits_from_stop acc (String.◌∷◌ d s) c t h =
    rw (cons-append d s (String.◌∷◌ c t)) (elim (Option-cases (digit_value (code d))) [
      | inl other ↦ rw (other, digits_from)
      | inr (v, found) ↦ rw (found, digits_from) (digits_from_stop (acc * 10 + v) s c t h)
    ])

parse_digits_stop : (s t : String) → parse_digits (s <> dash t) ≡ none
unfolding parse_digits dash digits_from
parse_digits_stop String.[] t = rw (nil-append (dash t))
parse_digits_stop (String.◌∷◌ c s) t = rw (cons-append c s (dash t)) (
    rw (← cons-append c s (dash t))
      (digits_from_stop 0 (String.◌∷◌ c s) " " (String.◌∷◌ "-" (String.◌∷◌ " " t)) refl))

counter_suffix_early :
    (c : Char) (b t : String) → counter_suffix (String.◌∷◌ c (b <> dash t)) ≡ none
unfolding counter_suffix strip_prefix
counter_suffix_early c String.[] t = rw (nil-append (dash t)) (unfold dash in ground arith)
counter_suffix_early c (String.◌∷◌ d String.[]) t =
    rw (cons-append d "" (dash t), nil-append (dash t))
      (unfold dash parse_digits digits_from in ground arith)
counter_suffix_early c (String.◌∷◌ d (String.◌∷◌ e b)) t =
    rw (cons-append d (String.◌∷◌ e b) (dash t), cons-append e b (dash t))
      (ground (arith, parse_digits_stop b t))

strip_counter-dash :
    (b t : String) → is_some (counter_suffix (dash t)) ≡ true → strip_counter (b <> dash t) ≡ b
unfolding strip_counter
strip_counter-dash String.[] t h = rw (nil-append (dash t)) (unfold dash in ground arith)
strip_counter-dash (String.◌∷◌ c b) t h =
    rw (cons-append c b (dash t), counter_suffix_early c b t, strip_counter-dash b t h)

-- The base of a duplicate's name is the base of the original's name.
pub strip_counter-clone_name :
    (names : List String) (name : String)
    → strip_counter (clone_name names name) ≡ strip_counter name
unfolding clone_name
strip_counter-clone_name names name =
    let n = next_counter (taken (strip_counter name) names) in
    rw (append-dash (show_nat n))
      (strip_counter-dash (strip_counter name) (show_nat n) (ap is_some (counter_suffix-dash n)))
