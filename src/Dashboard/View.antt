-- ===== src/Dashboard/View.antt =====
-- frontend/app/(dashboard)/page.tsx: the four cards, the slices of the gauge, and the sample data
-- that the other cards show. `to_fixed x k` is `x.toFixed(k)`, `percent` is `x * 100`.
use clever_gate.Prelude.{
  ℕ, String, Bool, true, false, Option, none, some, List, [], ◌∷◌, ◌<>◌, take_chars, if◌then◌else◌,
}
use clever_gate.Show.{show_nat}
use clever_gate.Types.{DashboardMetrics}
use clever_gate.Widgets.{StatProps, TrendType, up, down, SparklineType, bar}
use clever_gate.Dashboard.{Page, pie_data, health_percent}

-- A connection of the sample, and how it is drawn.
pub record ActiveKey : Type 0 where
  pub label : String
  pub user : String
  pub role : String
  pub rate : String
  pub active : Bool

abbrev pub mock_active_keys : List ActiveKey
mock_active_keys =
    record {
      label = "Production Gateway Key";
      user = "Mahmuda Ruma";
      role = "DevOps Eng";
      rate = "24 req/m";
      active = true;
    }
    ∷ record {
      label = "Staging Test Key";
      user = "Juwel Jaman";
      role = "QA Engineer";
      rate = "12 req/m";
      active = true;
    }
    ∷ record {
      label = "Personal Dev Key";
      user = "Elham";
      role = "Frontend Dev";
      rate = "0 req/m";
      active = false;
    }
    ∷ []

pub record Connection : Type 0 where
  pub letter : String
  pub user : String
  pub label : String
  pub rate : String
  pub rate_color : String
  pub state_color : String
  pub state : String

abbrev connection : ActiveKey → Connection
connection k = record {
  letter = take_chars 1 k.user;
  user = k.user;
  label = k.label;
  rate = k.rate;
  rate_color = if k.active then "brand" else "gray";
  state_color = if k.active then "brand" else "dimmed";
  state = if k.active then "online" else "idle";
}

unfoldable pub connections : List ActiveKey → List Connection
connections [] = []
connections (k ∷ ks) = connection k ∷ connections ks

-- A bar pair of the last chart: the model, its requests and its tokens.
abbrev pub model_usage_data : List (String × ℕ × ℕ)
model_usage_data =
    ("GPT-4o", 3400, 4200) ∷ ("Claude-3.5", 5500, 6800) ∷ ("Gemini-Pro", 2707, 3500) ∷ []

-- The slices of the gauge with their names and colours, and the text in its middle.
unfoldable pub gauge : {Money : Type 0} → Page Money → List (String × ℕ × String) × String
gauge p =
    let (healthy, down_count) = pie_data p.health in
    (
      ("Healthy", healthy, "#3f72af") ∷ ("Down", down_count, "#dbe2ef") ∷ [],
      show_nat (health_percent p.health) <> "%",
    )

abbrev card :
    (title value subtitle badge : String)
    → TrendType
    → List ℕ
    → (color : String) → Option SparklineType
    → StatProps
card title value subtitle badge trend points color type = record {
  title = title;
  value = value;
  subtitle = some subtitle;
  has_icon = false;
  color = some "brand";
  trend_badge = some badge;
  trend_type = some trend;
  sparkline_data = some points;
  sparkline_color = some color;
  sparkline_type = type;
}

module _ {Money : Type 0} (to_fixed : Money → ℕ → String) (percent : Money → Money)
    (zero : Money) where
  abbrev pub cards_of : (requests tokens keys : ℕ) (rps cost hit_rate : Money) → List StatProps
  cards_of requests tokens keys rps cost hit_rate =
      card "Requests" (show_nat requests) (to_fixed rps 1 <> " req/s") "↑ 19%" up
        (12 ∷ 19 ∷ 15 ∷ 22 ∷ 18 ∷ 24 ∷ 22 ∷ []) "#3f72af" none
      ∷ card "Tokens" (show_nat tokens) "total" "↑ 16%" up (30 ∷ 45 ∷ 38 ∷ 55 ∷ 48 ∷ 62 ∷ 50 ∷ [])
          "#72a2cf" none
      ∷ card "Cost" ("$" <> to_fixed cost 2) "total spend" "↑ 12%" up
          (10 ∷ 15 ∷ 12 ∷ 18 ∷ 14 ∷ 20 ∷ 19 ∷ []) "#3f72af" (some bar)
      ∷ card "Cache Hit" (to_fixed (percent hit_rate) 1 <> "%") (show_nat keys <> " active keys")
          "↓ 5%" down (85 ∷ 82 ∷ 88 ∷ 84 ∷ 87 ∷ 85 ∷ 83 ∷ []) "#dbe2ef" (some bar)
      ∷ []

  -- `metrics?.… ?? 0`
  abbrev pub metric_cards : Option (DashboardMetrics Money) → List StatProps
  metric_cards none = cards_of 0 0 0 zero zero zero
  metric_cards (some m) =
      cards_of m.total_requests m.total_tokens m.active_keys m.rps m.total_cost_usd m.cache_hit_rate

  -- The message of the load, or the page.
  unfoldable pub view : Page Money → Option (List StatProps)
  view p = if p.loading then none else some (metric_cards p.metrics)
