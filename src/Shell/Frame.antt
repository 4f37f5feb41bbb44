-- ===== src/Shell/Frame.antt =====
-- frontend/components/layout/Sidebar.tsx and Topbar.tsx: what the sidebar and the bar at the top
-- show. A character of a text is a code point here, where the code takes a unit of UTF-16.
use text.Mathlib.Text.{◌==◌}
use clever_gate.Prelude.{
  ℕ, String, Bool, Option, none, some, List, [], ◌∷◌, truthy, take_chars, if◌then◌else◌,
}
use clever_gate.Types.{AdminUser}
use clever_gate.Shell.{NavItem, NavGroup, grouped_nav, is_active, Crumb, trail}

-- An entry as it is drawn.
pub record NavEntry : Type 0 where
  pub href : String
  pub label : String
  pub icon_color : String
  pub is_bright : Bool
  pub weight : ℕ
  pub background : String
  pub color : String
  pub active : Bool

abbrev pub entry_of : Bool → NavItem → NavEntry
entry_of active i = record {
  href = i.href;
  label = i.label;
  icon_color = if active then i.color else "var(--mantine-color-dimmed)";
  is_bright = active;
  weight = if active then 700 else 550;
  background = if active then "var(--cg-hover-glow)" else "transparent";
  color = if active then "var(--mantine-color-brand-filled)" else "inherit";
  active = active;
}

abbrev pub entries_of : String → List NavItem → List NavEntry
entries_of pathname [] = []
entries_of pathname (i ∷ is) = entry_of (is_active pathname i.href) i ∷ entries_of pathname is

abbrev pub groups_of : String → List NavGroup → List (String × List NavEntry)
groups_of pathname [] = []
groups_of pathname (g ∷ gs) = (g.title, entries_of pathname g.items) ∷ groups_of pathname gs

-- The list of the entries by groups.
unfoldable pub navigation : (pathname : String) → List (String × List NavEntry)
navigation pathname = groups_of pathname grouped_nav

-- The card of the user: the letter in its circle, the name and the address.
pub record Profile : Type 0 where
  pub letter : String
  pub name : String
  pub email : String

-- `upper` is `toUpperCase`.
unfoldable pub profile : (upper : String → String) → Option AdminUser → Profile
unfolding take_chars
profile upper none = record {
  letter = upper "A";
  name = "Salman JB";
  email = "salman@clever.local";
}
profile upper (some u) = record {
  letter = upper (if truthy u.username then take_chars 1 u.username else "A");
  name = u.username;
  email = u.email;
}

-- The icon that toggles the scheme, with its colour.
pub data SchemeIcon : Type 0 where
  sun moon : (color : String) → SchemeIcon

abbrev pub scheme_icon : (moon_color color_scheme : String) → SchemeIcon
scheme_icon moon_color color_scheme =
    if color_scheme == "dark" then sun "#eab308" else moon moon_color

-- The bar at the top: the trail and the icon.
unfoldable pub topbar :
    (title : Option String) (pathname color_scheme : String) → Crumb × SchemeIcon
topbar title pathname color_scheme = (trail title pathname, scheme_icon "#3f72af" color_scheme)
