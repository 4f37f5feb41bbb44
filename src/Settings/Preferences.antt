-- ===== src/Settings/Preferences.antt =====
-- frontend/app/(dashboard)/settings/page.tsx: the card with the appearance and the palettes, and
-- what its buttons do to the theme.
pub mod Laws
use text.Mathlib.Text.{◌==◌}
use clever_gate.Prelude.{ℕ, String, Bool, List, [], ◌∷◌, if◌then◌else◌}
use clever_gate.Settings.{ThemeMeta, themes}
use clever_gate.Theme.{Registry, ThemeVariant, toggle_color_scheme, set_theme_variant}

-- How a button looks that is lit or not.
pub record ButtonStyle : Type 0 where
  pub background : String
  pub border : String
  pub shadow : String
  pub text_color : String

abbrev pub button_style : Bool → ButtonStyle
button_style lit = record {
  background = if lit then "var(--cg-hover-glow)" else "rgba(255, 255, 255, 0.01)";
  border = if lit then "2px solid var(--cg-primary)" else "1px solid var(--cg-border)";
  shadow = if lit then "0 8px 24px var(--cg-hover-glow)" else "none";
  text_color = if lit then "var(--cg-primary)" else "inherit";
}

pub record ModeButton : Type 0 where
  pub scheme : String
  pub title : String
  pub text : String
  pub icon_color : String
  pub lit : Bool
  pub style : ButtonStyle

abbrev mode_button : String → String → String → String → Bool → ModeButton
mode_button scheme title text icon_color lit = record {
  scheme = scheme;
  title = title;
  text = text;
  icon_color = icon_color;
  lit = lit;
  style = button_style lit;
}

unfoldable pub mode_buttons : Registry → List ModeButton
mode_buttons r =
    mode_button "light" "Light Mode" "Soft warm-white interface" "yellow"
      (r.color_scheme == "light")
    ∷ mode_button "dark" "Dark Mode" "Rich high-contrast dark palette" "indigo"
        (r.color_scheme == "dark")
    ∷ []

-- `onClick` of the button of a scheme.
unfoldable pub click_mode : (scheme : String) → Registry → Registry
click_mode scheme r =
    let toggled = toggle_color_scheme r in if r.color_scheme == scheme then r else toggled

-- A tile of the palettes: the two halves of its circle, each a colour with a dot, and its text.
pub record Tile : Type 0 where
  pub key : String
  pub label : String
  pub left : String × String
  pub right : String × String
  pub weight : ℕ
  pub lit : Bool
  pub style : ButtonStyle

abbrev pub tile : String → ThemeMeta → Tile
tile variant t = record {
  key = t.key;
  label = t.label;
  left = (t.light_bg, t.light_primary);
  right = (t.dark_bg, t.dark_primary);
  weight = if variant == t.key then 750 else 600;
  lit = variant == t.key;
  style = button_style (variant == t.key);
}

abbrev pub tiles_of : String → List ThemeMeta → List Tile
tiles_of variant [] = []
tiles_of variant (t ∷ ts) = tile variant t ∷ tiles_of variant ts

unfoldable pub tiles : Registry → List Tile
tiles r = tiles_of r.theme_variant themes

-- `onClick` of a tile.
unfoldable pub click_tile : ThemeVariant → Registry → Registry
click_tile v r = set_theme_variant v r
