-- ===== src/Spend.antt =====
-- frontend/app/(dashboard)/spend/page.tsx: the two loads that settle together, the cards and the
-- rows. `locale` is `toLocaleString()` of a whole number.
use clever_gate.Prelude.{ℕ, String, Bool, true, false, Option, none, some, List, [], ◌<>◌}
use clever_gate.Types.{SpendRecord, DashboardMetrics}
use clever_gate.Api.{Result, ok, err}

pub record Page (Money : Type 0) : Type 0 where
  pub records : List (SpendRecord Money)
  pub metrics : Option (DashboardMetrics Money)
  pub loading : Bool

unfoldable pub initial : (Money : Type 0) → Page Money
initial Money = record { records = []; metrics = none; loading = true }

-- `Promise.all` of two results, whichever settles first: both values, or a failure.
unfoldable pub both_ok {ℓ} : {A B : Type ℓ} → Result A → Result B → Option (A × B)
both_ok (ok a) (ok b) = some (a, b)
both_ok (ok a) (err e) = none
both_ok (err e) r = none

abbrev pub take :
    {Money : Type 0}
    → Option (List (SpendRecord Money) × DashboardMetrics Money)
    → Page Money
    → Page Money
take none p = record p { loading = false }
take (some (items, m)) p = record { records = items; metrics = some m; loading = false }

-- `load`: the failure is ignored.
unfoldable pub load :
    {Money : Type 0}
    → Result (List (SpendRecord Money))
    → Result (DashboardMetrics Money)
    → Page Money
    → Page Money
unfolding both_ok
load records metrics p = take (both_ok records metrics) p

pub record Row : Type 0 where
  pub model : String
  pub prompt : String
  pub completion : String
  pub cost : String
  pub time : String

abbrev or_dash : Option String → String
or_dash none = "—"
or_dash (some s) = s

abbrev count_text : (ℕ → String) → Option ℕ → String
count_text locale none = "—"
count_text locale (some n) = locale n

-- The four cards, as texts; `count_up` is the number that the second counts up to.
pub record Cards : Type 0 where
  pub total_spend : String
  pub count_up : ℕ
  pub error_rate : String
  pub avg_latency : String

-- `to_fixed x k` is `x.toFixed(k)`, `percent` is `x * 100`, and `rounded` is `Math.round(x)`
-- written out.
module _ {Money : Type 0} (locale : ℕ → String) (to_fixed : Money → ℕ → String)
    (percent : Money → Money) (rounded : Money → String) (zero : Money) where
  abbrev cost_text : Option Money → String
  cost_text none = "—"
  cost_text (some c) = "$" <> to_fixed c 6

  unfoldable pub row : SpendRecord Money → Row
  row r = record {
    model = or_dash r.model;
    prompt = count_text locale r.prompt_tokens;
    completion = count_text locale r.completion_tokens;
    cost = cost_text r.cost_usd;
    time = or_dash r.created_at;
  }

  abbrev pub cards_of : (cost : Money) (tokens : ℕ) (errors latency : Money) → Cards
  cards_of cost tokens errors latency = record {
    total_spend = "$" <> to_fixed cost 2;
    count_up = tokens;
    error_rate = to_fixed (percent errors) 1 <> "%";
    avg_latency = rounded latency <> " ms";
  }

  unfoldable pub cards : Option (DashboardMetrics Money) → Cards
  cards none = cards_of zero 0 zero zero
  cards (some m) = cards_of m.total_cost_usd m.total_tokens m.error_rate m.avg_latency_ms
