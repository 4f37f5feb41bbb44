-- ===== src/Logs/Row.antt =====
-- frontend/app/(dashboard)/logs/page.tsx: what a row of the console shows, and the console's
-- texts. Layout, colours given by style sheets and animation are left out.
use Prim.Native.Char.{Char, code}
use clever_gate.Prelude.{
  ℕ, suc, String, Bool, true, false, Option, none, some, List, [], ◌∷◌, ◌<>◌, lookup, nat_eq, ltb,
  if◌then◌else◌, digit_value, is_some, slice,
}
use clever_gate.Json.{Fields, end, field}
use clever_gate.Types.{SystemLog}

abbrev pub level_colors : List (String × String)
level_colors =
    ("DEBUG", "gray")
    ∷ ("INFO", "blue")
    ∷ ("WARNING", "yellow")
    ∷ ("ERROR", "red")
    ∷ ("CRITICAL", "grape")
    ∷ []

abbrev or_gray : Option String → String
or_gray none = "gray"
or_gray (some c) = c

unfoldable pub level_color : String → String
unfolding lookup
level_color level = or_gray (lookup level level_colors)

-- One place of `T(\d{2}:\d{2}:\d{2}\.\d{3})`: a digit, or the character of that number.
pub data Place : Type 0 where
  any_digit : Place
  exactly : ℕ → Place

abbrev pub fits : Place → ℕ → Bool
fits any_digit c = is_some (digit_value c)
fits (exactly k) c = nat_eq c k

abbrev time_places : List Place
time_places =
    any_digit
    ∷ any_digit
    ∷ exactly b':'
    ∷ any_digit
    ∷ any_digit
    ∷ exactly b':'
    ∷ any_digit
    ∷ any_digit
    ∷ exactly b'.'
    ∷ any_digit
    ∷ any_digit
    ∷ any_digit
    ∷ []

cons_char : Char → Option String → Option String
cons_char c none = none
cons_char c (some s) = some (String.◌∷◌ c s)

-- The text at the start of `s` that fits the places.
match_here : List Place → String → Option String
match_here [] s = some ""
match_here (p ∷ ps) String.[] = none
match_here (p ∷ ps) (String.◌∷◌ c s) =
    if fits p (code c) then cons_char c (match_here ps s) else none

abbrev or_else : Option String → Option String → Option String
or_else none o = o
or_else (some s) o = some s

-- `timestamp.match(...)`: the leftmost `T` that the time follows.
match_time : String → Option String
match_time String.[] = none
match_time (String.◌∷◌ c s) =
    or_else (if nat_eq (code c) b'T' then match_here time_places s else none) (match_time s)

abbrev or_slice : String → Option String → String
or_slice t none = slice 11 23 t
or_slice t (some time) = time

unfoldable pub formatted_time : String → String
unfolding match_time match_here cons_char
formatted_time t = or_slice t (match_time t)

abbrev chars : String → ℕ
chars String.[] = 0
chars (String.◌∷◌ c s) = suc (chars s)

unfoldable pub short_name : String → String
unfolding slice
short_name name = "[" <> (if ltb 20 (chars name) then slice 0 18 name <> ".." else name) <> "]"

unfoldable pub has_context : Fields → Bool
has_context end = false
has_context (field k v fs) = true

-- The texts of a `LogRow`, left to right; `tag` says whether the "JSON" tag is there.
pub record LogRow : Type 0 where
  pub color : String
  pub time : String
  pub level : String
  pub logger : String
  pub text : String
  pub tag : Bool

unfoldable pub log_row : SystemLog → LogRow
unfolding level_color formatted_time short_name has_context
log_row l = record {
  color = level_color l.level;
  time = formatted_time l.timestamp;
  level = l.level;
  logger = short_name l.logger_name;
  text = l.message;
  tag = has_context l.context;
}
