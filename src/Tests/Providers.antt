-- ===== src/Tests/Providers.antt =====
-- Duplicates, forms and failures of the providers' page.
use text.Mathlib.Text.{◌==◌}
use clever_gate.Runs
use clever_gate.Prelude.{
  ◌≡◌, refl, String, true, false, Option, none, some, List, [], ◌∷◌, if◌then◌else◌,
}
use clever_gate.Json.{Json, end, obj}
use clever_gate.Types.{Provider, Deployment}
use clever_gate.Api.{Result, ok, err, thrown}
use clever_gate.Providers.Clone.{strip_counter, clone_name}
use clever_gate.Providers.Clone.Names.{IsNew, clone_name-IsNew, strip_counter-clone_name}
use clever_gate.Providers.Forms.{
  Call, post, ProviderForm, DeploymentForm, provider_call, deployment_call, open_provider,
  open_deployment, save_provider, save_deployment, submit,
}
use clever_gate.Providers.Forms.Laws.{new_body, Outcome, save-Outcome}
use clever_gate.Providers.Page.{
  editing_provider, Page, providers, nothing, step, duplicate_provider,
}
use clever_gate.Prelude.{ℕ, ◌≤◌, ◌+◌, length, arith}
use clever_gate.Types.{ProviderInfo}
use clever_gate.Providers.Clone.{count_up, next_counter, has}
use clever_gate.Providers.Clone.Counter.{next_counter_ends}
use clever_gate.Providers.Drawers.{provider_drawer}
use clever_gate.Providers.Page.Duplicates.{duplicate_created}
use clever_gate.Providers.Info
use clever_gate.Providers.Info.Laws.{shown, expected, answers, answer_to, run-answers}
use clever_gate.Prelude.{◌&&◌, Bool}
use clever_gate.Auth.{login_body}
use clever_gate.Users.{UserForm, open_user, user_call}
use clever_gate.Keys
use clever_gate.Providers.Forms.{open_key, key_call}
use clever_gate.Schemas.{
  accepts, fits, dict, optional, login_request, user_create, api_key_create, provider_key_create,
  provider_update, deployment_create,
}
use clever_gate.Schemas.Laws.{is_limit, body_of, bodies-accepts}

abbrev names : List String
names = "openai" ∷ "openai - 1" ∷ "openai - 3" ∷ []

clone_name-IsNew_example : IsNew (clone_name names "openai - 1") names
clone_name-IsNew_example = clone_name-IsNew names "openai - 1"

strip_counter-clone_name_example :
    strip_counter (clone_name names "openai - 1") ≡ strip_counter "openai - 1"
strip_counter-clone_name_example = strip_counter-clone_name names "openai - 1"

abbrev openai : Provider
openai = record {
  id = "1";
  name = "openai";
  adapter_type = "litellm";
  base_url = some "";
  config = end;
  is_enabled = true;
  created_at = "";
  updated_at = "";
}

abbrev gpt : Deployment
gpt = record {
  id = "2";
  provider_id = "1";
  model_name = "gpt";
  litellm_model = "openai/gpt";
  litellm_params = end;
  tpm = none;
  rpm = none;
  context_window = none;
  is_enabled = true;
  priority = 0;
  created_at = "";
  updated_at = "";
}

abbrev page : Page
page = record {
  tab = providers;
  provider_rows = openai ∷ [];
  deployment_rows = gpt ∷ [];
  key_rows = [];
  loading = false;
  error_text = "";
  drawer_open = false;
  editing = nothing;
  info_target = none;
  template = none;
  deployment_template = none;
}

abbrev write : Json → String
write v = "{}"

abbrev read : String → Option Json
read s = if s == "{}" then some (obj end) else none

abbrev accepted : Call → Result (Option Json)
accepted c = ok none

abbrev provider_form : ProviderForm
provider_form = open_provider write none none

abbrev deployment_form : DeploymentForm
deployment_form = open_deployment write (openai ∷ []) none (some gpt)

save-Outcome_example :
    Outcome accepted
      (provider_call none provider_form)
      (read provider_form.config)
      (save_provider read accepted none none provider_form)
    × Outcome accepted
        (deployment_call none deployment_form)
        (read deployment_form.params)
        (save_deployment read accepted none (some gpt) deployment_form)
save-Outcome_example =
    save-Outcome read accepted none none provider_form none (some gpt) deployment_form

duplicate_created_example :
    let q = step page (duplicate_provider openai) in
    let copy : Provider = record openai { name = clone_name ("openai" ∷ []) "openai" } in
    let editing = editing_provider q.editing in
    (q.drawer_open ≡ true)
    × (save_provider read accepted editing q.template (open_provider write editing q.template)
        ≡ submit accepted
            (post "/api/admin/providers" (new_body write read copy))
            "Provider duplicated")
    × ((provider_drawer editing q.template false).title ≡ "Duplicate Provider")
    × IsNew copy.name ("openai" ∷ [])
duplicate_created_example = duplicate_created write read accepted page openai refl

next_counter_ends_example :
    (count_up 9 1 (1 ∷ 2 ∷ 4 ∷ []) ≡ next_counter (1 ∷ 2 ∷ 4 ∷ []))
    × (has (next_counter (1 ∷ 2 ∷ 4 ∷ [])) (1 ∷ 2 ∷ 4 ∷ []) ≡ false)
    × (next_counter (1 ∷ 2 ∷ 4 ∷ []) ≤ 3 + 1)
next_counter_ends_example = next_counter_ends (1 ∷ 2 ∷ 4 ∷ []) 9 (omega arith)

abbrev usage : ProviderInfo ℕ
usage = record {
  provider_id = "1";
  provider_name = "openai";
  total_requests = 3;
  total_tokens = 40;
  total_cost_usd = 0;
  deployments = [];
}

-- The drawer was opened once before, and its answer came.
abbrev visited : List (Info.Event ℕ)
visited =
    Info.retarget (some openai) ∷ Info.settled 0 (err (thrown "offline")) ∷ Info.retarget none ∷ []

run-answers_example :
    let d = Info.run (Info.initial ℕ) visited in
    shown (Info.run (Info.step d (Info.retarget (some openai))) (answers ((1, ok usage) ∷ [])))
    ≡ expected d.info (answer_to (length d.paths) ((1, ok usage) ∷ []))
unfolding Runs.run Info.step Info.initial
run-answers_example = run-answers visited openai ((1, ok usage) ∷ []) refl

abbrev nobody : UserForm
nobody = open_user none

abbrev new_key : Keys.KeyForm
new_key = Keys.open_form []

bodies-accepts_example :
    let is_id : String → Bool = λ s. s == "1" in
    (accepts is_id login_request (login_body "root" "pw" (some "")) ≡ true)
    × (accepts is_id user_create (body_of (user_call none nobody)) ≡ true)
    × (accepts is_id api_key_create (Keys.key_body new_key) ≡ is_id new_key.user_id)
    × (accepts is_id provider_key_create (body_of (key_call (open_key (openai ∷ []))))
        ≡ is_id (open_key (openai ∷ [])).provider_id)
    × (accepts is_id provider_update (body_of (provider_call (some openai) provider_form (obj end)))
        ≡ fits is_id (optional dict) (obj end))
    × (accepts is_id deployment_create (body_of (deployment_call none deployment_form (obj end)))
        ≡ (is_id deployment_form.provider_id
            && (fits is_id dict (obj end)
                && (is_limit is_id deployment_form.tpm
                    && (is_limit is_id deployment_form.rpm
                        && is_limit is_id deployment_form.ctx)))))
bodies-accepts_example =
    bodies-accepts (λ s. s == "1") "root" "pw" (some "") none nobody new_key
      (open_key (openai ∷ [])) (some openai) provider_form none deployment_form (obj end)
