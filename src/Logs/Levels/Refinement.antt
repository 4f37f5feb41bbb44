-- ===== src/Logs/Levels/Refinement.antt =====
-- What the level toggles promise: five switches. The set of level names implements them.
use text.Mathlib.Text.{◌==◌}
use clever_gate.Prelude.{
  text_tests, String, Bool, true, false, not, ◌&&◌, ◌||◌, List, [], ◌∷◌, ◌≡◌, refl, ◌∙◌, ap, arith,
  keep_if, if◌then◌else◌, Bool-cases, inl, inr,
}
use clever_gate.Types.{SystemLog}
use clever_gate.Logs.Levels.{
  levels, has, Group, all, info, warning, error, toggle_level, toggle_level_group, is_all_active,
  is_error_active, filtered_logs,
}
use clever_gate.Logs.Levels.Laws.{
  Toggle, chip, card, apply, apply_all, IsLevelSet, levels-IsLevelSet, at_levels,
  apply_all-IsLevelSet, apply-IsLevelSet,
}
use clever_gate.Logs.Levels.Toggles.{is_all_active_iff, has-toggle_level, has-toggle_level_group}

-- One switch for each level.
pub record Switches : Type 0 where
  pub debug : Bool
  pub info : Bool
  pub warning : Bool
  pub error : Bool
  pub critical : Bool

abbrev pub all_on : Switches
all_on = record { debug = true; info = true; warning = true; error = true; critical = true }

abbrev pub is_on : String → Switches → Bool
is_on x s =
    if x == "DEBUG"
    then s.debug
    else if x == "INFO"
    then s.info
    else if x == "WARNING"
    then s.warning
    else if x == "ERROR"
    then s.error
    else if x == "CRITICAL"
    then s.critical
    else false

-- A chip flips its switch.
abbrev pub flip : String → Switches → Switches
flip x s = record {
  debug = if x == "DEBUG" then not s.debug else s.debug;
  info = if x == "INFO" then not s.info else s.info;
  warning = if x == "WARNING" then not s.warning else s.warning;
  error = if x == "ERROR" then not s.error else s.error;
  critical = if x == "CRITICAL" then not s.critical else s.critical;
}

-- A card flips its switch; the card of errors turns its two switches off if one is on, and else on;
-- the card of all logs turns all off if all are on, and else on.
abbrev pub flip_group : Group → Switches → Switches
flip_group all s =
    let on = not (s.debug && s.info && s.warning && s.error && s.critical) in
    record { debug = on; info = on; warning = on; error = on; critical = on }
flip_group info s = record s { info = not s.info }
flip_group warning s = record s { warning = not s.warning }
flip_group error s = let on = not (s.error || s.critical) in record s { error = on; critical = on }

abbrev pub spec : Toggle → Switches → Switches
spec (chip x h) s = flip x s
spec (card g) s = flip_group g s

abbrev pub spec_all : List Toggle → Switches → Switches
spec_all [] s = s
spec_all (t ∷ ts) s = spec_all ts (spec t s)

-- The switches that a set of level names stands for.
abbrev pub switches_of : List String → Switches
switches_of s = record {
  debug = has "DEBUG" s;
  info = has "INFO" s;
  warning = has "WARNING" s;
  error = has "ERROR" s;
  critical = has "CRITICAL" s;
}

chip-switches_of :
    (s : List String) (x : String)
    → has x levels ≡ true
    → switches_of (toggle_level x s) ≡ flip x (switches_of s)
chip-switches_of s =
    at_levels (λ x. switches_of (toggle_level x s) ≡ flip x (switches_of s))
      (simp has-toggle_level refl) (simp has-toggle_level refl) (simp has-toggle_level refl)
      (simp has-toggle_level refl) (simp has-toggle_level refl)

to_all :
    (x : String) (s : List String)
    → has x (toggle_level_group all s)
      ≡ (if is_all_active s then false else has x levels || has x s)
to_all x s = (has-toggle_level_group x s).0

to_one :
    (s : List String)
    → (toggle_level_group info s ≡ toggle_level "INFO" s)
      × (toggle_level_group warning s ≡ toggle_level "WARNING" s)
unfolding toggle_level_group toggle_level
to_one s = (refl, refl)

not_if : (b : Bool) → (if b then false else true) ≡ not b
not_if true = refl
not_if false = refl

to_error :
    (x : String) (s : List String)
    → has x (toggle_level_group error s)
      ≡ (if "ERROR" == x || "CRITICAL" == x then not (is_error_active s) else has x s)
to_error x s = (has-toggle_level_group x s).3

card-switches_of :
    (g : Group) (s : List String)
    → IsLevelSet s
    → switches_of (toggle_level_group g s) ≡ flip_group g (switches_of s)
unfolding has
card-switches_of all s v =
    let full : is_all_active s
        ≡ (has "DEBUG" s && has "INFO" s && has "WARNING" s && has "ERROR" s && has "CRITICAL" s) =
      ground (arith, is_all_active_iff s v) in
    rw
      (
        to_all "DEBUG" s,
        to_all "INFO" s,
        to_all "WARNING" s,
        to_all "ERROR" s,
        to_all "CRITICAL" s,
        full,
      )
      (ap (λ (on : Bool). record { debug = on; info = on; warning = on; error = on; critical = on })
        (not_if
          (has "DEBUG" s && has "INFO" s && has "WARNING" s && has "ERROR" s && has "CRITICAL" s)))
card-switches_of info s v = ap switches_of (to_one s).0 ∙ chip-switches_of s "INFO" refl
card-switches_of warning s v = ap switches_of (to_one s).1 ∙ chip-switches_of s "WARNING" refl
card-switches_of error s v =
    rw
      (
        to_error "DEBUG" s,
        to_error "INFO" s,
        to_error "WARNING" s,
        to_error "ERROR" s,
        to_error "CRITICAL" s,
      )
      refl

apply-switches_of :
    (t : Toggle) (s : List String) → IsLevelSet s → switches_of (apply t s) ≡ spec t (switches_of s)
unfolding apply
apply-switches_of (chip x h) s v = chip-switches_of s x h
apply-switches_of (card g) s v = card-switches_of g s v

apply_all-switches_of :
    (ts : List Toggle) (s : List String)
    → IsLevelSet s
    → switches_of (apply_all ts s) ≡ spec_all ts (switches_of s)
unfolding apply_all
apply_all-switches_of [] s v = refl
apply_all-switches_of (t ∷ ts) s v =
    apply_all-switches_of ts (apply t s) (apply-IsLevelSet t s v)
    ∙ ap (spec_all ts) (apply-switches_of t s v)

has-switches_of : (s : List String) (x : String) → IsLevelSet s → has x s ≡ is_on x (switches_of s)
unfolding has
has-switches_of s x v = elim (Bool-cases (has x levels)) [
  | inl known ↦ at_levels (λ y. has y s ≡ is_on y (switches_of s)) refl refl refl refl refl x known
  | inr unknown ↦ grind (text_tests, v.within x)
]

filtered_logs-switches_of :
    (s : List String) (logs : List SystemLog)
    → IsLevelSet s
    → filtered_logs s logs ≡ keep_if (λ l. is_on l.level (switches_of s)) logs
unfolding filtered_logs
filtered_logs-switches_of s [] v = refl
filtered_logs-switches_of s (l ∷ ls) v =
    ground (arith, has-switches_of s l.level v, filtered_logs-switches_of s ls v)

-- Whatever the user toggles, the logs that are shown are those whose level's switch is on, where the
-- switches start all on and each toggle is what it is for switches.
pub apply_all_refines :
    (ts : List Toggle) (logs : List SystemLog)
    → (switches_of (apply_all ts levels) ≡ spec_all ts all_on)
      × (filtered_logs (apply_all ts levels) logs
          ≡ keep_if (λ l. is_on l.level (spec_all ts all_on)) logs)
unfolding has
apply_all_refines ts logs =
    let e = apply_all-switches_of ts levels levels-IsLevelSet in
    (
      e,
      filtered_logs-switches_of (apply_all ts levels) logs (apply_all-IsLevelSet ts)
          ∙ ap (λ s. keep_if (λ l. is_on l.level s) logs) e,
    )
