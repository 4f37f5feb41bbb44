-- ===== src/Widgets.antt =====
-- frontend/components/cg/Toast.tsx, Confirm.tsx, Stat.tsx and Drawer.tsx, and
-- frontend/components/States.tsx: what the small parts of the pages hand on to the component
-- library. The library's functions are not modelled: each definition is what one is given.
pub mod Motion
use text.Mathlib.Text.{◌==◌}
use clever_gate.Prelude.{
  ℕ, suc, String, Bool, true, false, Option, none, some, List, [], ◌∷◌, lookup, truthy,
  if◌then◌else◌,
}

pub data ToastType : Type 0 where
  success error info warning : ToastType

-- `colorMap[type]`
abbrev pub toast_color : ToastType → String
toast_color success = "green"
toast_color error = "red"
toast_color info = "blue"
toast_color warning = "orange"

-- What `notifications.show` is given.
pub record Notification : Type 0 where
  pub message : String
  pub color : String
  pub auto_close : ℕ
  pub with_border : Bool

abbrev type_or_info : Option ToastType → ToastType
type_or_info none = info
type_or_info (some t) = t

unfoldable pub toast : String → Option ToastType → Notification
toast message type = record {
  message = message;
  color = toast_color (type_or_info type);
  auto_close = 4000;
  with_border = true;
}

-- `s || d` of a text that may be missing.
abbrev pub text_or : String → Option String → String
text_or d none = d
text_or d (some s) = if truthy s then s else d

-- `d` stands for a property that is missing.
abbrev pub given_or {ℓ} : {A : Type ℓ} → A → Option A → A
given_or d none = d
given_or d (some a) = a

pub record ConfirmOptions : Type 0 where
  pub title : String
  pub message : String
  pub confirm_label : Option String
  pub cancel_label : Option String
  pub danger : Option Bool

-- What `openConfirmModal` is given.
pub record ConfirmModal : Type 0 where
  pub title : String
  pub text : String
  pub confirm : String
  pub cancel : String
  pub confirm_color : Option String

unfoldable pub confirm : ConfirmOptions → ConfirmModal
confirm o = record {
  title = o.title;
  text = o.message;
  confirm = text_or "Confirm" o.confirm_label;
  cancel = text_or "Cancel" o.cancel_label;
  confirm_color = if given_or false o.danger then some "red" else none;
}

-- A card of one number.
pub data TrendType : Type 0 where
  up down neutral : TrendType

pub data SparklineType : Type 0 where
  line bar : SparklineType

pub record StatProps : Type 0 where
  pub title : String
  pub value : String
  pub subtitle : Option String
  pub has_icon : Bool
  pub color : Option String
  pub trend_badge : Option String
  pub trend_type : Option TrendType
  pub sparkline_data : Option (List ℕ)
  pub sparkline_color : Option String
  pub sparkline_type : Option SparklineType

abbrev pub color_glow_map : List (String × String)
color_glow_map =
    ("brand", "rgba(106, 118, 252, 0.15)")
    ∷ ("grape", "rgba(190, 75, 219, 0.15)")
    ∷ ("orange", "rgba(253, 126, 20, 0.15)")
    ∷ ("green", "rgba(64, 192, 87, 0.15)")
    ∷ ("red", "rgba(250, 82, 82, 0.15)")
    ∷ ("teal", "rgba(18, 184, 134, 0.15)")
    ∷ ("cyan", "rgba(20, 184, 166, 0.15)")
    ∷ []

unfoldable pub glow_color : String → String
unfolding lookup
glow_color color = text_or "rgba(106, 118, 252, 0.12)" (lookup color color_glow_map)

abbrev pub badge_color : TrendType → String
badge_color up = "green"
badge_color down = "red"
badge_color neutral = "gray"

-- `sparklineData?.map((v, i) => ({ id: i, value: v }))`, from the index `i` on.
abbrev pub chart_from : ℕ → List ℕ → List (ℕ × ℕ)
chart_from i [] = []
chart_from i (v ∷ vs) = (i, v) ∷ chart_from (suc i) vs

-- On the right of a card.
pub data Aside : Type 0 where
  sparkline : SparklineType → (color : String) → List (ℕ × ℕ) → Aside
  icon : (color : String) → Aside
  empty : Aside

abbrev pub icon_aside : Bool → String → Aside
icon_aside has_icon color = if has_icon then icon color else empty

abbrev pub aside : StatProps → Option (List ℕ) → Aside
aside s none = icon_aside s.has_icon (given_or "brand" s.color)
aside s (some []) = icon_aside s.has_icon (given_or "brand" s.color)
aside s (some (v ∷ vs)) =
    sparkline (given_or line s.sparkline_type) (text_or "#6a76fc" s.sparkline_color)
      (chart_from 0 (v ∷ vs))

pub record Stat : Type 0 where
  pub title : String
  pub value : String
  pub subtitle : Option String
  pub glow : String
  pub badge : Option (String × String)
  pub aside : Aside

-- `badge && …` and `subtitle && …` leave out an empty text.
abbrev pub if_text : Option String → Option String
if_text none = none
if_text (some s) = if truthy s then some s else none

abbrev badge_of : TrendType → Option String → Option (String × String)
badge_of t none = none
badge_of t (some s) = if truthy s then some (badge_color t, s) else none

unfoldable pub stat : StatProps → Stat
unfolding glow_color
stat s = record {
  title = s.title;
  value = s.value;
  subtitle = if_text s.subtitle;
  glow = glow_color (given_or "brand" s.color);
  badge = badge_of (given_or neutral s.trend_type) s.trend_badge;
  aside = aside s s.sparkline_data;
}

-- The texts of the three states.
abbrev pub loading_message : Option String → String
loading_message m = given_or "Connecting to system logs…" m

abbrev pub empty_message : Option String → String
empty_message m = given_or "No records found" m

-- A drawer's head: its title, the colour of its icon, if it has one, and its size.
pub record DrawerHead : Type 0 where
  pub title : String
  pub icon_color : Option String
  pub size : String

unfoldable pub drawer_head :
    (title : String) (has_icon : Bool) (icon_color size : Option String) → DrawerHead
drawer_head title has_icon icon_color size = record {
  title = title;
  icon_color = if has_icon then some (given_or "brand" icon_color) else none;
  size = given_or "md" size;
}
