-- ===== src/Tests/Pages.antt =====
-- The smaller pages, the dashboard and the table.
use text.Mathlib.Text.{◌==◌}
use clever_gate.Runs
use clever_gate.Prelude.{
  ◌≤◌, take_last, length, ℕ, ◌≤◌, ◌≡◌, refl, String, true, false, Option, none, some, List, [], ◌∷◌,
  length, lookup, if◌then◌else◌,
}
use clever_gate.Json.{Json, end, obj}
use clever_gate.Dashboard
use clever_gate.Dashboard.Laws.{points}
use clever_gate.Dashboard.Live.History.{page_events, run-history_live}
use clever_gate.Show.{show_nat}
use clever_gate.Monitoring
use clever_gate.Monitoring.Laws.{run_in_order}
use clever_gate.Types.{RequestLog, DashboardMetrics, Deployment, Setting}
use clever_gate.Api.{Result, ok}
use clever_gate.Models.{list_or_new, aliases_of}
use clever_gate.Models.Laws.{of_alias, aliases_of-of_alias}
use clever_gate.Keys
use clever_gate.Keys.{Page, settled, generate_clicked, open_form, models_text}
use clever_gate.Keys.Inputs.{Input, user_chosen, name_typed, models_typed, users_changed, type_all}
use clever_gate.Keys.Saving.{expected_body, generate_key_typed}
use clever_gate.Providers.Forms.{success}
use clever_gate.Prelude.{join}
use clever_gate.Settings.{draft_from, handle_save, object_of}
use clever_gate.Settings.Laws.{values_from, handle_save_unchanged}
use clever_gate.Prelude.{◌+◌}
use clever_gate.Dashboard.Live
use clever_gate.Dashboard.Live.{fetches_made}
use clever_gate.Dashboard.Live.Laws.{run_after_unmount}

abbrev deployment : String → String → Deployment
deployment id alias = record {
  id = id;
  provider_id = "p";
  model_name = alias;
  litellm_model = "m";
  litellm_params = end;
  tpm = none;
  rpm = none;
  context_window = none;
  is_enabled = true;
  priority = 0;
  created_at = "";
  updated_at = "";
}

abbrev three : List Deployment
three = deployment "1" "gpt" ∷ deployment "2" "claude" ∷ deployment "3" "gpt" ∷ []

aliases_of-of_alias_example : list_or_new (lookup "gpt" (aliases_of three)) ≡ of_alias "gpt" three
aliases_of-of_alias_example = aliases_of-of_alias "gpt" three

abbrev answers_key : Json → Result String
answers_key body = ok "sk-1"

abbrev key_inputs : List Input
key_inputs =
    models_typed "gpt-4o"
    ∷ users_changed []
    ∷ user_chosen (some "u2")
    ∷ name_typed "ci"
    ∷ models_typed "gpt-4o, claude 3"
    ∷ []

abbrev no_keys : Page
no_keys = record { keys = []; users = []; loading = false; drawer_open = true; created_key = none }

generate_key_typed_example :
    let c = Keys.handle_save answers_key (type_all (open_form []) key_inputs) no_keys in
    (c.body ≡ expected_body [] key_inputs ("gpt-4o" ∷ "claude 3" ∷ []))
    × (c.notice ≡ success "Key generated")
    × (c.page.drawer_open ≡ false)
    × (c.reload ≡ true)
    × ((Keys.run c.page (settled (ok []) (ok []) ∷ generate_clicked ∷ [])).created_key
        ≡ some "sk-1")
unfolding models_text join
generate_key_typed_example =
    generate_key_typed answers_key [] key_inputs no_keys "gpt-4o" ("claude 3" ∷ []) "sk-1"
      (settled (ok []) (ok []) ∷ generate_clicked ∷ []) refl
      ((refl, refl, refl), ((refl, refl, refl), tt)) refl

abbrev write : Json → String
write v = "{}"

abbrev read : String → Option Json
read s = if s == "{}" then some (obj end) else none

abbrev two_settings : List Setting
two_settings =
    record { key = "cache"; value = end; description = none }
    ∷ record { key = "limits"; value = end; description = none }
    ∷ []

handle_save_unchanged_example :
    (handle_save read (λ v. ok none) (draft_from write [] two_settings)).body
    ≡ obj (object_of (values_from write read [] two_settings))
handle_save_unchanged_example =
    handle_save_unchanged write read (λ v. ok none) two_settings (refl, (refl, tt))

-- Numbers in place of amounts, which no rounding changes.
abbrev metrics : DashboardMetrics ℕ
metrics = record {
  total_requests = 9;
  total_tokens = 100;
  total_cost_usd = 3;
  cache_hit_rate = 0;
  active_keys = 1;
  error_rate = 0;
  rps = 2;
  avg_latency_ms = 40;
}

-- A server whose second page is empty.
abbrev request_log : String → Option (List (RequestLog ℕ) × ℕ)
request_log path =
    if path == "/api/admin/request-logs?page=2&page_size=25" then none else some ([], 7)

-- The filter is typed while two loads are under way.
abbrev filtering : List (Monitoring.Event ℕ)
filtering =
    Monitoring.page_chosen 2
    ∷ Monitoring.load_settled 0 (some ([], 7))
    ∷ Monitoring.filter_typed "gpt"
    ∷ Monitoring.load_settled 0 none
    ∷ Monitoring.load_settled 0 (some ([], 7))
    ∷ []

run_in_order_example :
    let p = Monitoring.run (λ s. s) (Monitoring.initial (λ s. s) ℕ) filtering in
    (p.loading ≡ false) × (p.logs ≡ []) × (p.total ≡ 7)
unfolding Runs.run Monitoring.step Monitoring.initial Monitoring.load Monitoring.request_path
    show_nat
run_in_order_example =
    run_in_order (λ s. s) request_log filtering [] 7
      (
        tt,
        (
          (refl, (_, _, refl, refl)),
          (tt, ((refl, (_, _, refl, refl)), ((refl, (_, _, refl, refl)), tt))),
        ),
      )
      refl refl

-- The first metrics are under way when the page goes away, and arrive then.
abbrev first_tick : List (Live.Event ℕ)
first_tick = Live.metrics_timer 0 ∷ []

abbrev too_late : List (Live.Event ℕ)
too_late =
    Live.first_metrics (some ("10:00:00", metrics))
    ∷ Live.metrics_ends none
    ∷ Live.health_timer 0
    ∷ []

run_after_unmount_example :
    let c = Live.run (λ x. x) (λ x. x) (Live.mounted ℕ) first_tick in
    let d = Live.step (λ x. x) (λ x. x) c Live.unmount in
    let e = Live.run (λ x. x) (λ x. x) d too_late in
    (e.page ≡ d.page) × (fetches_made e ≤ fetches_made c + 1)
run_after_unmount_example = run_after_unmount (λ x. x) (λ x. x) first_tick too_late

-- The first fetches and a timer's fetch settle, and the page goes away.
abbrev watched : List (Live.Event ℕ)
watched =
    Live.first_metrics (some ("10:00:00", metrics))
    ∷ Live.metrics_timer 0
    ∷ Live.first_health none
    ∷ Live.metrics_ends (some ("10:00:05", metrics))
    ∷ Live.unmount
    ∷ []

run-history_live_example :
    let p = (Live.run (λ x. x) (λ x. x) (Live.mounted ℕ) watched).page in
    let heard = page_events (λ x. x) (λ x. x) (Live.mounted ℕ) watched in
    (p ≡ Dashboard.run (λ x. x) (λ x. x) (Dashboard.initial ℕ) heard)
    × (p.history ≡ take_last 30 (points (λ x. x) (λ x. x) true heard))
    × (length p.history ≤ 30)
run-history_live_example = run-history_live (λ x. x) (λ x. x) watched
