-- ===== src/Dashboard/Live.antt =====
-- frontend/app/(dashboard)/page.tsx: the effect that feeds the dashboard, with the two polling
-- clients that it creates and the first fetches that it makes itself. `fetchMetrics` and
-- `fetchHealth` catch their errors, so that as a client's fetcher they never reject.
pub mod Laws
pub mod History
use clever_gate.Runs
use clever_gate.Prelude.{
  ℕ, suc, ◌+◌, ◌≤◌, ◌≡◌, refl, ◌∙◌, ap, String, Bool, true, false, Option, none, some, List, [],
  ◌∷◌, nat_eq, if◌then◌else◌, arith,
}
use clever_gate.Types.{DashboardMetrics, ProviderHealthItem}
use clever_gate.Streams.Polling
use clever_gate.Streams.Polling.{Client, create, fires, settles, stop}
use clever_gate.Dashboard.{Page, take_metrics, take_health, initial}

-- `fetchMetrics().then(fetchHealth)`
pub data First : Type 0 where
  metrics_pending health_pending settled : First

pub record Dashboard (Money : Type 0) : Type 0 where
  pub page : Page Money
  pub metrics_client : Client (Unit {0})
  pub health_client : Client (Unit {0})
  pub first : First
  -- how many calls of `api.get` the first fetches have made
  pub first_fetches : ℕ

-- The call of `api.get` of a fetch settles with its data, or fails.
pub data Event (Money : Type 0) : Type 0 where
  first_metrics : Option (String × DashboardMetrics Money) → Event Money
  first_health : Option (List ProviderHealthItem) → Event Money
  metrics_timer : ℕ → Event Money
  metrics_ends : Option (String × DashboardMetrics Money) → Event Money
  health_timer : ℕ → Event Money
  health_ends : Option (List ProviderHealthItem) → Event Money
  unmount : Event Money

module _ {Money : Type 0} (hundredth whole : Money → Money) where
  abbrev pub first_metrics_ends :
      First → Option (String × DashboardMetrics Money) → Dashboard Money → Dashboard Money
  first_metrics_ends metrics_pending r c = record c {
    page = take_metrics hundredth whole r c.page;
    first = health_pending;
    first_fetches = suc c.first_fetches;
  }
  first_metrics_ends health_pending r c = c
  first_metrics_ends settled r c = c

  abbrev pub first_health_ends :
      First → Option (List ProviderHealthItem) → Dashboard Money → Dashboard Money
  first_health_ends metrics_pending r c = c
  first_health_ends health_pending r c = record c {
    page = take_health hundredth whole r c.page;
    first = settled;
  }
  first_health_ends settled r c = c

  unfoldable pub step : Dashboard Money → Event Money → Dashboard Money
  step c (first_metrics r) = first_metrics_ends c.first r c
  step c (first_health r) = first_health_ends c.first r c
  step c (metrics_timer id) = record c { metrics_client = Polling.step c.metrics_client (fires id) }
  step c (metrics_ends r) = if nat_eq c.metrics_client.in_flight 0 then c else record c {
    page = take_metrics hundredth whole r c.page;
    metrics_client = Polling.step c.metrics_client (settles (some tt) false);
  }
  step c (health_timer id) = record c { health_client = Polling.step c.health_client (fires id) }
  step c (health_ends r) = if nat_eq c.health_client.in_flight 0 then c else record c {
    page = take_health hundredth whole r c.page;
    health_client = Polling.step c.health_client (settles (some tt) false);
  }
  step c unmount = record c {
    page = record c.page { mounted = false };
    metrics_client = Polling.step c.metrics_client stop;
    health_client = Polling.step c.health_client stop;
  }

  abbrev pub run : Dashboard Money → List (Event Money) → Dashboard Money
  run = Runs.run step

-- The effect up to its end: the first fetch is made, and both clients are created.
unfoldable pub mounted : (Money : Type 0) → Dashboard Money
mounted Money = record {
  page = initial Money;
  metrics_client = create Unit;
  health_client = create Unit;
  first = metrics_pending;
  first_fetches = 1;
}

-- All calls of `api.get` that were made for the dashboard; each may send several requests.
abbrev pub fetches_made : {M : Type 0} → Dashboard M → ℕ
fetches_made c = c.first_fetches + c.metrics_client.fetches + c.health_client.fetches
