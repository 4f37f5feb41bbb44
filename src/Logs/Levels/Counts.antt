-- ===== src/Logs/Levels/Counts.antt =====
-- The counts on the cards against the rows that the cards' levels show.

use text.Mathlib.TextEquality.{eq_iff}
use clever_gate.Prelude.{
  ℕ, ◌+◌, String, true, false, List, [], ◌∷◌, ◌≡◌, refl, arith, length, Bool-cases, inl, inr,
}
use clever_gate.Types.{SystemLog}
use clever_gate.Logs.Levels.Sets.{bit}
use clever_gate.Logs.Levels.Laws.{at_levels}
use clever_gate.Logs.Levels.{levels, has, filtered_logs, Stats, count_level, count_levels, stats}

-- How many rows the filter leaves of some levels.
abbrev pub shown : List String → List SystemLog → ℕ
shown active logs = length (filtered_logs active logs)

abbrev errors : List String
errors = "ERROR" ∷ "CRITICAL" ∷ []

-- What one round of the count does for a level.
abbrev Counted : Stats → String → Type 0
Counted s x =
    let t = count_level x s in
    (t.total ≡ s.total)
    × (t.debug ≡ s.debug + bit (has x ("DEBUG" ∷ [])))
    × (t.info ≡ s.info + bit (has x ("INFO" ∷ [])))
    × (t.warning ≡ s.warning + bit (has x ("WARNING" ∷ [])))
    × (t.error ≡ s.error + bit (has x errors))

count_level_known : (s : Stats) (x : String) → has x levels ≡ true → Counted s x
unfolding has
count_level_known s =
    at_levels (Counted s) (omega arith) (omega arith) (omega arith) (omega arith) (omega arith)

count_level_unknown : (s : Stats) (x : String) → has x levels ≡ false → Counted s x
unfolding has
count_level_unknown s x h = ground (
  arith,
  eq_iff x "DEBUG",
  eq_iff x "INFO",
  eq_iff x "WARNING",
  eq_iff x "ERROR",
  eq_iff x "CRITICAL",
  eq_iff "DEBUG" x,
  eq_iff "INFO" x,
  eq_iff "WARNING" x,
  eq_iff "ERROR" x,
  eq_iff "CRITICAL" x,
)

count_level-has : (x : String) (s : Stats) → Counted s x
count_level-has x s = elim (Bool-cases (has x levels)) [
  | inl known ↦ count_level_known s x known
  | inr unknown ↦ count_level_unknown s x unknown
]

shown-cons :
    (active : List String) (l : SystemLog) (ls : List SystemLog)
    → shown active (l ∷ ls) ≡ bit (has l.level active) + shown active ls
unfolding filtered_logs
shown-cons active l ls = ground arith

count_levels-shown :
    (s : Stats) (logs : List SystemLog)
    → let t = count_levels s logs in
      (t.total ≡ s.total)
      × (t.debug ≡ s.debug + shown ("DEBUG" ∷ []) logs)
      × (t.info ≡ s.info + shown ("INFO" ∷ []) logs)
      × (t.warning ≡ s.warning + shown ("WARNING" ∷ []) logs)
      × (t.error ≡ s.error + shown errors logs)
unfolding count_levels filtered_logs
count_levels-shown s [] = (refl, omega arith, omega arith, omega arith, omega arith)
count_levels-shown s (l ∷ ls) =
    let (t, d, i, w, e) = count_levels-shown (count_level l.level s) ls in
    let (t', d', i', w', e') = count_level-has l.level s in
    (
      omega arith,
      omega (arith, shown-cons ("DEBUG" ∷ []) l ls),
      omega (arith, shown-cons ("INFO" ∷ []) l ls),
      omega (arith, shown-cons ("WARNING" ∷ []) l ls),
      omega (arith, shown-cons errors l ls),
    )

-- Each card counts the logs that the filter shows of its levels, and the first card all logs.
pub stats-shown :
    (logs : List SystemLog)
    → let t = stats logs in
      (t.total ≡ length logs)
      × (t.debug ≡ shown ("DEBUG" ∷ []) logs)
      × (t.info ≡ shown ("INFO" ∷ []) logs)
      × (t.warning ≡ shown ("WARNING" ∷ []) logs)
      × (t.error ≡ shown errors logs)
unfolding stats
stats-shown logs =
    let (t, d, i, w, e) =
      count_levels-shown
        (record { total = length logs; debug = 0; info = 0; warning = 0; error = 0 }) logs in
    (t, omega arith, omega arith, omega arith, omega arith)
