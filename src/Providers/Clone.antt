-- ===== src/Providers/Clone.antt =====
-- frontend/app/(dashboard)/providers/page.tsx, `handleCloneProvider` and `handleCloneDeployment`:
-- the name of a duplicate, "<base> - N" with the first free N.
pub mod Counter
pub mod Names
use Prim.Native.Char.{Char, code}
use Prim.Native.String
use clever_gate.Prelude.{
  ℕ, zero, suc, ◌+◌, String, Bool, true, false, ◌||◌, Option, none, some, List, [], ◌∷◌, ◌≡◌, refl,
  any, nat_eq, length, map, is_some, strip_prefix, ◌<>◌, if◌then◌else◌,
}
use clever_gate.Show.{show_nat, parse_digits}

-- The text is " - " and digits: the number that they stand for.
abbrev suffix_rest : Option String → Option ℕ
suffix_rest none = none
suffix_rest (some digits) = parse_digits digits

unfoldable pub counter_suffix : String → Option ℕ
unfolding strip_prefix parse_digits
counter_suffix s = suffix_rest (strip_prefix " - " s)

-- `name.replace(/ - \d+$/, "")`: the leftmost match is cut off.
unfoldable pub strip_counter : String → String
strip_counter String.[] = ""
strip_counter (String.◌∷◌ c s) =
    if is_some (counter_suffix (String.◌∷◌ c s)) then "" else String.◌∷◌ c (strip_counter s)

-- `name.match(new RegExp("^" + escaped base + " - (\\d+)$"))` and `parseInt` of its group.
abbrev rest_counter : Option String → Option ℕ
rest_counter none = none
rest_counter (some rest) = counter_suffix rest

unfoldable pub counter_of : String → String → Option ℕ
counter_of base name = rest_counter (strip_prefix base name)

abbrev pub cons_number : Option ℕ → List ℕ → List ℕ
cons_number none ns = ns
cons_number (some n) ns = n ∷ ns

-- The counters in use for a base; only whether a number is among them is asked.
unfoldable pub taken : String → List String → List ℕ
taken base [] = []
taken base (name ∷ names) = cons_number (counter_of base name) (taken base names)

-- `taken.has(n)`
abbrev pub has : ℕ → List ℕ → Bool
has n ns = any (λ k. nat_eq k n) ns

-- `while (taken.has(counter)) counter++`
unfoldable pub count_up : ℕ → ℕ → List ℕ → ℕ
count_up zero counter ns = counter
count_up (suc fuel) counter ns =
    let further = count_up fuel (suc counter) ns in if has counter ns then further else counter

-- The loop makes at most one round for each number in use, and one more test.
unfoldable pub next_counter : List ℕ → ℕ
unfolding count_up
next_counter ns = count_up (suc (length ns)) 1 ns

-- The name of a duplicate of `name` beside those that are loaded.
unfoldable pub clone_name : List String → String → String
clone_name names name =
    let base = strip_counter name in base <> " - " <> show_nat (next_counter (taken base names))
