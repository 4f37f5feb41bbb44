-- ===== src/Dashboard.antt =====
-- frontend/app/(dashboard)/page.tsx: the dashboard's numbers, its history of metrics and the gauge
-- of the providers' health. Rates and times are of a type of their own, with the roundings that the
-- code makes of them. The two polling clients are those of `Streams.Polling`; each fetch settles as
-- an event.
pub mod Laws
pub mod Live
pub mod View
use clever_gate.Runs
use clever_gate.Prelude.{
  ℕ, ◌+◌, ◌-◌, ◌*◌, ◌/◌, String, Bool, true, false, Option, none, some, List, [], ◌∷◌, ◌++◌,
  take_last, length, keep_if, nat_eq, if◌then◌else◌,
}
use clever_gate.Types.{DashboardMetrics, ProviderHealthItem}

pub record MetricPoint (Money : Type 0) : Type 0 where
  pub time : String
  pub rps : Money
  pub latency : Money

-- `history` is also what `historyRef` holds.
pub record Page (Money : Type 0) : Type 0 where
  pub metrics : Option (DashboardMetrics Money)
  pub health : List ProviderHealthItem
  pub history : List (MetricPoint Money)
  pub loading : Bool
  pub mounted : Bool

-- A fetch of the metrics settles with them and the time shown on the clock, or fails.
pub data Event (Money : Type 0) : Type 0 where
  metrics_settled : Option (String × DashboardMetrics Money) → Event Money
  health_settled : Option (List ProviderHealthItem) → Event Money
  unmounted : Event Money

-- `hundredth` is `Math.round(x * 100) / 100` and `whole` is `Math.round(x)`.
module _ {Money : Type 0} (hundredth whole : Money → Money) where
  abbrev pub point_of : String → DashboardMetrics Money → MetricPoint Money
  point_of time m = record { time = time; rps = hundredth m.rps; latency = whole m.avg_latency_ms }

  -- `fetchMetrics` after its `await`.
  abbrev pub take_metrics : Option (String × DashboardMetrics Money) → Page Money → Page Money
  take_metrics none p = p
  take_metrics (some (time, m)) p =
      let shown : Page Money = record p {
        metrics = some m;
        loading = false;
        history = take_last 30 (p.history ++ point_of time m ∷ []);
      } in
      if p.mounted then shown else p

  -- `fetchHealth` after its `await`.
  abbrev pub take_health : Option (List ProviderHealthItem) → Page Money → Page Money
  take_health none p = p
  take_health (some items) p = if p.mounted then record p { health = items } else p

  unfoldable pub step : Page Money → Event Money → Page Money
  step p (metrics_settled r) = take_metrics r p
  step p (health_settled r) = take_health r p
  step p unmounted = record p { mounted = false }

  abbrev pub run : Page Money → List (Event Money) → Page Money
  run = Runs.run step

unfoldable pub initial : (Money : Type 0) → Page Money
initial Money = record { metrics = none; health = []; history = []; loading = true; mounted = true }

-- The gauge, from the circuit breakers that are said to be open.
unfoldable pub healthy_count : List ProviderHealthItem → ℕ
healthy_count health = length (keep_if (λ h. h.is_open) health)

unfoldable pub total_count : List ProviderHealthItem → ℕ
total_count health = if nat_eq (length health) 0 then 1 else length health

-- `Math.round((healthyCount / totalCount) * 100)`, with an exact quotient.
unfoldable pub health_percent : List ProviderHealthItem → ℕ
unfolding healthy_count total_count
health_percent health = let n = total_count health in (200 * healthy_count health + n) / (2 * n)

-- The slices of the pie: how many are healthy, and how many are down.
unfoldable pub pie_data : List ProviderHealthItem → ℕ × ℕ
unfolding healthy_count total_count
pie_data health = (healthy_count health, total_count health - healthy_count health)
