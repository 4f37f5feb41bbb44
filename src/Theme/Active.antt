-- ===== src/Theme/Active.antt =====
-- frontend/theme/theme.ts, what `getTheme` sets for each variant, and what ThemeRegistry.tsx hands to
-- the component library.
use clever_gate.Prelude.{ℕ, String, Bool, true, List}
use clever_gate.Theme.{Registry}
use clever_gate.Theme.Palettes.{brand_colors}

-- What `createTheme` is given.
pub record MantineTheme : Type 0 where
  pub primary_color : String
  pub brand : List String
  pub font_family : String
  pub headings_font_family : String
  pub headings_font_weight : String
  pub default_radius : String
  pub button : ℕ × String
  pub card : Bool × String × String
  pub table : Bool × String
  pub nav_link_radius : String

unfoldable pub get_theme : (variant : String) → MantineTheme
get_theme variant = record {
  primary_color = "brand";
  brand = brand_colors variant;
  font_family =
      "var(--font-inter), -apple-system, BlinkMacSystemFont, 'Segoe UI', Roboto, sans-serif";
  headings_font_family =
      "var(--font-outfit), var(--font-inter), -apple-system, BlinkMacSystemFont, 'Segoe UI', Roboto, sans-serif";
  headings_font_weight = "800";
  default_radius = "lg";
  button = (700, "md");
  card = (true, "sm", "lg");
  table = (true, "md");
  nav_link_radius = "10px";
}

-- The provider's theme, and its default and forced scheme.
pub record Provided : Type 0 where
  pub theme : MantineTheme
  pub default_scheme : String
  pub forced_scheme : String

unfoldable pub provided : Registry → Provided
provided r = record {
  theme = get_theme r.theme_variant;
  default_scheme = r.color_scheme;
  forced_scheme = r.color_scheme;
}
