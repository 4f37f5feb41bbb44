-- ===== src/Theme.antt =====
-- frontend/theme/ThemeRegistry.tsx: the colour scheme and the theme variant, and how they are kept
-- in the storage. A stored text is taken as it is, whether or not it names a scheme or a variant.
pub mod Laws
pub mod Palettes
pub mod Active
use text.Mathlib.Text.{◌==◌}
use clever_gate.Runs
use clever_gate.Prelude.{
  String, Bool, true, false, Option, none, some, List, [], ◌∷◌, truthy, if◌then◌else◌, or_null,
}

pub data ThemeVariant : Type 0 where
  ocean forest warm sage lavender teal sunset olive cyberpunk earth cherry mint vibrant noir aqua :
      ThemeVariant

unfoldable pub variant_text : ThemeVariant → String
variant_text ocean = "ocean"
variant_text forest = "forest"
variant_text warm = "warm"
variant_text sage = "sage"
variant_text lavender = "lavender"
variant_text teal = "teal"
variant_text sunset = "sunset"
variant_text olive = "olive"
variant_text cyberpunk = "cyberpunk"
variant_text earth = "earth"
variant_text cherry = "cherry"
variant_text mint = "mint"
variant_text vibrant = "vibrant"
variant_text noir = "noir"
variant_text aqua = "aqua"

-- What `localStorage` holds under the two keys.
pub record Stored : Type 0 where
  pub scheme : Option String
  pub variant : Option String

abbrev or_default : String → Option String → String
or_default d none = d
or_default d (some s) = if truthy s then s else d

-- `in_page` says whether `window` is there.
unfoldable pub get_stored_scheme : Bool → Stored → String
get_stored_scheme in_page s = if in_page then or_default "dark" s.scheme else "dark"

unfoldable pub get_stored_variant : Bool → Stored → String
get_stored_variant in_page s = if in_page then or_default "ocean" s.variant else "ocean"

pub record Registry : Type 0 where
  pub color_scheme : String
  pub theme_variant : String
  -- `data-theme-variant` of the document
  pub attribute : Option String
  pub stored : Stored

unfoldable pub initial : Stored → Registry
initial s = record { color_scheme = "dark"; theme_variant = "ocean"; attribute = none; stored = s }

-- The effect that follows a change of the variant.
abbrev show_variant : Registry → Registry
show_variant r = record r { attribute = some r.theme_variant }

-- The effects of the first rendering, which run in a page.
unfoldable pub mount : Registry → Registry
unfolding get_stored_scheme get_stored_variant
mount r = show_variant (record r {
  color_scheme = get_stored_scheme true r.stored;
  theme_variant = get_stored_variant true r.stored;
})

unfoldable pub toggle_color_scheme : Registry → Registry
toggle_color_scheme r =
    let next = if r.color_scheme == "dark" then "light" else "dark" in
    record r {
      color_scheme = next;
      stored = record { scheme = some next; variant = r.stored.variant };
    }

unfoldable pub set_theme_variant : ThemeVariant → Registry → Registry
unfolding variant_text
set_theme_variant v r = show_variant (record r {
  theme_variant = variant_text v;
  stored = record { scheme = r.stored.scheme; variant = some (variant_text v) };
})

pub data Event : Type 0 where
  toggle : Event
  choose : ThemeVariant → Event

unfoldable pub step : Registry → Event → Registry
step r toggle = toggle_color_scheme r
step r (choose v) = set_theme_variant v r

abbrev pub run : Registry → List Event → Registry
run = Runs.run step
