-- ===== src/Logs/Levels/Toggles.antt =====
-- What each toggle does to each level, and to the logs that are shown.
use text.Mathlib.Text.{◌==◌}
use clever_gate.Prelude.{
  text_tests, String, true, false, not, ◌||◌, List, [], ◌∷◌, ◌≡◌, refl, ◌↔◌, arith, if◌then◌else◌,
}
use clever_gate.Types.{SystemLog}
use clever_gate.Logs.Levels.{
  levels, has, add, delete, add_all, toggle_level, all, info, warning, error, is_all_active,
  is_error_active, toggle_level_group, filtered_logs,
}
use clever_gate.Logs.Levels.Sets.{has-add, has-delete}
use clever_gate.Logs.Levels.Laws.{Toggle, apply_all, IsLevelSet, apply_all-IsLevelSet}

-- For a set of levels, the card of all logs is lit exactly when each of the five is shown.
pub is_all_active_iff :
    (s : List String)
    → IsLevelSet s
    → (is_all_active s ≡ true) ↔ (
        (has "DEBUG" s ≡ true)
        × (has "INFO" s ≡ true)
        × (has "WARNING" s ≡ true)
        × (has "ERROR" s ≡ true)
        × (has "CRITICAL" s ≡ true))
is_all_active_iff s v = let c = v.counted in ground arith

-- A chip flips its own level and no other.
pub has-toggle_level :
    (x y : String) (s : List String)
    → has x (toggle_level y s) ≡ (if y == x then not (has y s) else has x s)
unfolding toggle_level
has-toggle_level x y s = grind (text_tests, has-add x y s, has-delete x y s)

has-add_all : (x : String) (ls s : List String) → has x (add_all ls s) ≡ (has x ls || has x s)
unfolding add_all has
has-add_all x [] s = refl
has-add_all x (l ∷ ls) s = ground (arith, has-add_all x ls (add l s), has-add x l s)

-- What each card does to each level: those of info and warnings flip their own level; the card of
-- errors hides both of its levels if one is shown, and else shows both; the card of all logs hides
-- all if it is lit, and else shows the five and keeps the rest.
pub has-toggle_level_group :
    (x : String) (s : List String)
    → (has x (toggle_level_group all s)
        ≡ (if is_all_active s then false else has x levels || has x s))
      × (has x (toggle_level_group info s) ≡ (if "INFO" == x then not (has "INFO" s) else has x s))
      × (has x (toggle_level_group warning s)
          ≡ (if "WARNING" == x then not (has "WARNING" s) else has x s))
      × (has x (toggle_level_group error s)
          ≡ (if "ERROR" == x || "CRITICAL" == x then not (is_error_active s) else has x s))
unfolding toggle_level_group has
has-toggle_level_group x s = (
  ground (arith, has-add_all x levels s),
  has-toggle_level x "INFO" s,
  has-toggle_level x "WARNING" s,
  ground (
    arith,
    has-add x "CRITICAL" (add "ERROR" s),
    has-add x "ERROR" s,
    has-delete x "CRITICAL" (delete "ERROR" s),
    has-delete x "ERROR" s,
  ),
)

abbrev pub AllLogs : (SystemLog → Type 0) → List SystemLog → Type 0
AllLogs P [] = Unit
AllLogs P (l ∷ ls) = P l × AllLogs P ls

filtered_unknown :
    (s : List String) (logs : List SystemLog)
    → IsLevelSet s
    → AllLogs (λ l. has l.level levels ≡ true) (filtered_logs s logs)
unfolding filtered_logs
filtered_unknown s [] v = tt
filtered_unknown s (l ∷ ls) v = ground (arith, filtered_unknown s ls v, v.within l.level)

-- Whatever the user toggles, a log of another level than the five is never shown.
pub filtered_logs-AllLogs :
    (ts : List Toggle) (logs : List SystemLog)
    → AllLogs (λ l. has l.level levels ≡ true) (filtered_logs (apply_all ts levels) logs)
filtered_logs-AllLogs ts logs =
    filtered_unknown (apply_all ts levels) logs (apply_all-IsLevelSet ts)
