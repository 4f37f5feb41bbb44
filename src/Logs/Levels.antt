-- ===== src/Logs/Levels.antt =====
-- frontend/app/(dashboard)/logs/page.tsx: the set of levels that are shown, its toggles, the
-- filter and the counts on the cards. A `Set` is the list of its elements in insertion order.
pub mod Sets
pub mod Laws
pub mod Toggles
pub mod Counts
pub mod Refinement
use text.Mathlib.Text.{◌==◌}
use clever_gate.Prelude.{
  ℕ, suc, ◌+◌, String, Bool, true, false, not, ◌||◌, Option, none, some, List, [], ◌∷◌, ◌++◌, any,
  keep_if, length, nat_eq, if◌then◌else◌,
}
use clever_gate.Types.{SystemLog}

abbrev pub levels : List String
levels = "DEBUG" ∷ "INFO" ∷ "WARNING" ∷ "ERROR" ∷ "CRITICAL" ∷ []

-- `set.has(x)`
unfoldable pub has : String → List String → Bool
has x [] = false
has x (y ∷ s) = y == x || has x s

-- `set.add(x)`
unfoldable pub add : String → List String → List String
add x s = if has x s then s else s ++ x ∷ []

-- `set.delete(x)`
unfoldable pub delete : String → List String → List String
delete x [] = []
delete x (y ∷ s) = let rest = delete x s in if y == x then rest else y ∷ rest

-- `set.has(x) ? set.delete(x) : set.add(x)`
unfoldable pub toggle_level : String → List String → List String
toggle_level x s = if has x s then delete x s else add x s

pub data Group : Type 0 where
  all info warning error : Group

-- `LEVELS.forEach((l) => next.add(l))`
unfoldable pub add_all : List String → List String → List String
add_all [] s = s
add_all (l ∷ ls) s = add_all ls (add l s)

abbrev pub is_all_active : List String → Bool
is_all_active s = nat_eq (length s) 5

abbrev pub is_error_active : List String → Bool
is_error_active s = has "ERROR" s || has "CRITICAL" s

unfoldable pub toggle_level_group : Group → List String → List String
unfolding toggle_level add_all
toggle_level_group all s = if is_all_active s then [] else add_all levels s
toggle_level_group info s = toggle_level "INFO" s
toggle_level_group warning s = toggle_level "WARNING" s
toggle_level_group error s =
    if is_error_active s
    then delete "CRITICAL" (delete "ERROR" s)
    else add "CRITICAL" (add "ERROR" s)

-- `logs.filter((l) => activeLevels.has(l.level))`
unfoldable pub filtered_logs : List String → List SystemLog → List SystemLog
filtered_logs active logs = keep_if (λ l. has l.level active) logs

pub record Stats : Type 0 where
  pub total : ℕ
  pub debug : ℕ
  pub info : ℕ
  pub warning : ℕ
  pub error : ℕ

-- One round of the `forEach`.
abbrev pub count_level : String → Stats → Stats
count_level level s =
    if level == "DEBUG"
    then record s { debug = suc s.debug }
    else if level == "INFO"
    then record s { info = suc s.info }
    else if level == "WARNING"
    then record s { warning = suc s.warning }
    else if level == "ERROR" || level == "CRITICAL"
    then record s { error = suc s.error }
    else s

unfoldable pub count_levels : Stats → List SystemLog → Stats
count_levels s [] = s
count_levels s (l ∷ ls) = count_levels (count_level l.level s) ls

unfoldable pub stats : List SystemLog → Stats
unfolding count_levels
stats logs =
    count_levels (record { total = length logs; debug = 0; info = 0; warning = 0; error = 0 }) logs
