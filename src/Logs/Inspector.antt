-- ===== src/Logs/Inspector.antt =====
-- frontend/app/(dashboard)/logs/page.tsx: the drawer that shows one log. `lower` is `toLowerCase`,
-- `stringify` is `JSON.stringify`, and `pretty` is the same with an indent of two.
use Prim.Native.Char.{code}
use clever_gate.Prelude.{
  String, Bool, true, false, ◌&&◌, Option, none, some, List, [], ◌∷◌, is_some, digit_value, nat_eq,
  if◌then◌else◌, length,
}
use clever_gate.Json.{Json, null, arr, obj, value, to_text}
use clever_gate.Types.{SystemLog}
use clever_gate.Logs.Row.{level_color}
use clever_gate.Logs.Query.{entries, filtered_context_entries}

-- `t.replace("T", " ")`: the first one only.
unfoldable pub space_for_t : String → String
space_for_t String.[] = ""
space_for_t (String.◌∷◌ c s) =
    let rest = space_for_t s in if nat_eq (code c) b'T' then String.◌∷◌ " " s else String.◌∷◌ c rest

-- The text matches `\d*Z?$`.
abbrev pub is_fraction_end : String → Bool
is_fraction_end String.[] = true
is_fraction_end (String.◌∷◌ c s) =
    let rest = is_fraction_end s in
    if is_some (digit_value (code c)) then rest else nat_eq (code c) b'Z' && is_empty s
  where
    is_empty : String → Bool
    is_empty String.[] = true
    is_empty (String.◌∷◌ c s) = false

-- The text matches `\d+Z?$`.
abbrev pub is_fraction : String → Bool
is_fraction String.[] = false
is_fraction (String.◌∷◌ c s) = is_some (digit_value (code c)) && is_fraction_end s

-- `t.replace(/\.\d+Z?$/, "")`
unfoldable pub strip_fraction : String → String
strip_fraction String.[] = ""
strip_fraction (String.◌∷◌ c s) =
    let rest = strip_fraction s in
    if nat_eq (code c) b'.' && is_fraction s then "" else String.◌∷◌ c rest

unfoldable pub inspector_time : String → String
unfolding space_for_t strip_fraction
inspector_time t = strip_fraction (space_for_t t)

-- `copied` of a copy button gives its colour and its text.
abbrev pub copy_button : Bool → String → String → String × String
copy_button copied done label = if copied then ("green", done) else ("gray", label)

-- Below the message: the remark that there is no context, or the text to copy and what the search
-- finds, each key with its value's text.
pub data Metadata : Type 0 where
  no_metadata : Metadata
  metadata : (copy : String) (search : String) (found : Option (List (String × String))) → Metadata

pub record Inspector : Type 0 where
  pub color : String
  pub level : String
  pub time : String
  pub logger : String
  pub text : String
  pub context : Metadata

module _ (lower : String → String) (stringify pretty : Json → String) where
  -- `typeof v === "object" ? JSON.stringify(v, null, 2) : String(v)`
  abbrev pub value_text : Json → String
  value_text null = pretty null
  value_text (arr xs) = pretty (arr xs)
  value_text (obj fs) = pretty (obj fs)
  value_text v = to_text (value v)

  abbrev pub entry_texts : List (String × Json) → List (String × String)
  entry_texts [] = []
  entry_texts ((k, v) ∷ es) = (k, value_text v) ∷ entry_texts es

  unfoldable pub metadata_of : SystemLog → String → Metadata
  unfolding entries
  metadata_of l meta_search =
      let found = filtered_context_entries lower stringify (some l) meta_search in
      if nat_eq (length (entries l.context)) 0
      then no_metadata
      else metadata (pretty (obj l.context)) meta_search
          (if nat_eq (length found) 0 then none else some (entry_texts found))

  -- The drawer is open while a log is selected.
  unfoldable pub inspector : Option SystemLog → String → Option Inspector
  unfolding metadata_of inspector_time
  inspector none meta_search = none
  inspector (some l) meta_search = some (record {
    color = level_color l.level;
    level = l.level;
    time = inspector_time l.timestamp;
    logger = l.logger_name;
    text = l.message;
    context = metadata_of l meta_search;
  })
