-- ===== src/Monitoring.antt =====
-- frontend/app/(dashboard)/monitoring/page.tsx: the pages of the request log and their filter.
-- `encode` is `encodeURIComponent`, `fixed6` is `toFixed(6)`.
pub mod Laws
use text.Mathlib.Text.{◌==◌}
use clever_gate.Runs
use clever_gate.Prelude.{
  ℕ, zero, suc, ◌+◌, ◌++◌, length, String, Bool, true, false, not, ◌&&◌, ◌||◌, Option, none, some,
  List, [], ◌∷◌, ◌<>◌, truthy, nat_eq, ltb, if◌then◌else◌,
}
use clever_gate.Show.{show_nat}
use clever_gate.Types.{RequestLog}

-- `requests` are the paths of the loads that were started, the newest first; `pending` are those
-- among them that have no answer yet, the oldest first.
pub record Page (Money : Type 0) : Type 0 where
  pub logs : List (RequestLog Money)
  pub total : ℕ
  pub page : ℕ
  pub loading : Bool
  pub model_filter : String
  pub requests : List String
  pub pending : List String

-- An answer is that to one of the requests that have none yet, of which it says which.
pub data Event (Money : Type 0) : Type 0 where
  filter_typed : String → Event Money
  page_chosen : ℕ → Event Money
  load_settled : (which : ℕ) → Option (List (RequestLog Money) × ℕ) → Event Money

-- The list without the element at a place.
abbrev pub remove_at {ℓ} : {A : Type ℓ} → ℕ → List A → List A
remove_at n [] = []
remove_at zero (x ∷ xs) = xs
remove_at (suc n) (x ∷ xs) = x ∷ remove_at n xs

module _ (encode : String → String) where
  unfoldable pub request_path : (page : ℕ) (model_filter : String) → String
  request_path page model_filter =
      let path = "/api/admin/request-logs?page=" <> show_nat page <> "&page_size=25" in
      if truthy model_filter then path <> "&model=" <> encode model_filter else path

  module _ {Money : Type 0} where
    -- `load` up to its `await`.
    unfoldable pub load : Page Money → Page Money
    load p =
        let path = request_path p.page p.model_filter in
        record p { loading = true; requests = path ∷ p.requests; pending = p.pending ++ path ∷ [] }

    -- The rest of `load`: the answer is taken whichever request it answers.
    abbrev pub settle : Option (List (RequestLog Money) × ℕ) → Page Money → Page Money
    settle none p = record p { loading = false }
    settle (some (items, total)) p = record p { logs = items; total = total; loading = false }

    -- A change of the page or the filter runs the effect again.
    abbrev pub change : ℕ → String → Page Money → Page Money
    change page filter p =
        let q : Page Money = record p { page = page; model_filter = filter } in
        let loaded = load q in
        if nat_eq page p.page && (filter == p.model_filter) then q else loaded

    unfoldable pub step : Page Money → Event Money → Page Money
    unfolding load
    step p (filter_typed s) = change 1 s p
    step p (page_chosen n) = change n p.model_filter p
    step p (load_settled which r) =
        let settled = settle r (record p { pending = remove_at which p.pending }) in
        if ltb which (length p.pending) then settled else p

    abbrev pub run : Page Money → List (Event Money) → Page Money
    run = Runs.run step

  -- The page after its first load was started.
  unfoldable pub initial : (Money : Type 0) → Page Money
  unfolding load
  initial Money = load (record {
    logs = [];
    total = 0;
    page = 1;
    loading = true;
    model_filter = "";
    requests = [];
    pending = [];
  })

-- The colour of the status badge; a missing status and 0 are red.
abbrev pub status_color : Option ℕ → String
status_color none = "red"
status_color (some s) =
    if not (nat_eq s 0) && ltb s 400
    then "green"
    else if not (nat_eq s 0) && ltb s 500
    then "orange"
    else "red"

abbrev number_text : Option ℕ → String
number_text none = "—"
number_text (some n) = show_nat n

abbrev or_dash : Option String → String
or_dash none = "—"
or_dash (some s) = s

abbrev or_zero : Option ℕ → ℕ
or_zero none = 0
or_zero (some n) = n

abbrev tokens_text : Option ℕ → Option ℕ → Option ℕ → String
tokens_text none prompt completion = "—"
tokens_text (some t) prompt completion =
    show_nat (or_zero prompt) <> " + " <> show_nat (or_zero completion)

abbrev latency_text : Option ℕ → String
latency_text none = "—"
latency_text (some n) = show_nat n <> " ms"

-- The texts of one row.
pub record Row : Type 0 where
  pub time : String
  pub model : String
  pub status : String
  pub color : String
  pub tokens : String
  pub cost : String
  pub latency : String
  pub cache : String
  pub error : String

module _ {Money : Type 0} (fixed6 : Money → String) where
  abbrev cost_text : Option Money → String
  cost_text none = "—"
  cost_text (some c) = "$" <> fixed6 c

  unfoldable pub row : RequestLog Money → Row
  row l = record {
    time = or_dash l.created_at;
    model = or_dash l.model;
    status = number_text l.status_code;
    color = status_color l.status_code;
    tokens = tokens_text l.total_tokens l.prompt_tokens l.completion_tokens;
    cost = cost_text l.cost_usd;
    latency = latency_text l.latency_ms;
    cache = if l.cache_hit then "hit" else "miss";
    error = or_dash l.error_class;
  }
