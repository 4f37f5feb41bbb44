-- ===== src/Providers/Tables.antt =====
-- frontend/app/(dashboard)/providers/page.tsx: the columns of the three tables with the buttons of
-- each row, and what the panels draw. A cell that is no text is drawn by its buttons.
use clever_gate.Prelude.{
  String, Bool, false, Option, none, some, List, [], ◌∷◌, ◌<>◌, truthy, if◌then◌else◌,
}
use clever_gate.Types.{Provider, Deployment, ProviderKey}
use clever_gate.Table.{Column, Body, body}
use clever_gate.Providers.Page.{
  Tab, providers, deployments, keys, Page, Event, info_opened, edit_provider, edit_deployment,
  duplicate_provider, duplicate_deployment,
}
use clever_gate.Providers.Rows.{status_text, url_text, limit_text}

-- What a click on a button does: an event of the page, a test, or the question before a deletion.
pub data Action : Type 0 where
  raises : Event → Action
  tests : (id : String) → Action
  asks_to_delete : Tab → (id : String) → Action

pub record RowButton : Type 0 where
  pub tooltip : Option String
  pub color : Option String
  pub action : Action

abbrev button : Option String → Option String → Action → RowButton
button tooltip color action = record { tooltip = tooltip; color = color; action = action }

unfoldable pub provider_buttons : Provider → List RowButton
provider_buttons p =
    button (some "Model info & usage") (some "blue") (raises (info_opened p))
    ∷ button none none (raises (edit_provider p))
    ∷ button (some "Duplicate provider") (some "violet") (raises (duplicate_provider p))
    ∷ button none (some "teal") (tests p.id)
    ∷ button none (some "red") (asks_to_delete providers p.id)
    ∷ []

unfoldable pub deployment_buttons : Deployment → List RowButton
deployment_buttons d =
    button none none (raises (edit_deployment d))
    ∷ button (some "Duplicate deployment") (some "violet") (raises (duplicate_deployment d))
    ∷ button none (some "red") (asks_to_delete deployments d.id)
    ∷ []

unfoldable pub key_buttons : ProviderKey → List RowButton
key_buttons k = button none (some "red") (asks_to_delete keys k.id) ∷ []

-- The badge of the status.
abbrev pub status_color : Bool → String
status_color enabled = if enabled then "green" else "gray"

-- The columns of text; the last column of each table, without a label, holds the buttons.
abbrev column {ℓ} : {T : Type ℓ} → String → String → Option (T → String) → Column T
column key label render = record { key = key; label = label; render = render }

unfoldable pub provider_columns : List (Column Provider)
provider_columns =
    column "name" "Name" (some (λ p. p.name))
    ∷ column "adapter_type" "Adapter" none
    ∷ column "base_url" "Base URL" (some (λ p. url_text p.base_url))
    ∷ column "is_enabled" "Status" (some (λ p. status_text p.is_enabled))
    ∷ []

unfoldable pub deployment_columns : List (Column Deployment)
deployment_columns =
    column "model_name" "Model" (some (λ d. d.model_name))
    ∷ column "litellm_model" "LiteLLM Model" (some (λ d. d.litellm_model))
    ∷ column "tpm" "TPM/RPM" (some (λ d. limit_text d.tpm <> " / " <> limit_text d.rpm))
    ∷ column "context_window" "Context" (some (λ d. limit_text d.context_window))
    ∷ column "is_enabled" "Status" (some (λ d. status_text d.is_enabled))
    ∷ []

unfoldable pub key_columns : List (Column ProviderKey)
key_columns =
    column "label" "Label" (some (λ k. k.label))
    ∷ column "key_prefix" "Prefix" (some (λ k. k.key_prefix))
    ∷ column "is_enabled" "Status" (some (λ k. status_text k.is_enabled))
    ∷ []

-- The text of the button that adds.
unfoldable pub add_label : Tab → String
add_label keys = "Add Key"
add_label deployments = "Add Deployment"
add_label providers = "Add Provider"

-- `row[key]` of a provider, for the column without `render`.
abbrev pub provider_property : Provider → String → String
provider_property p key = p.adapter_type

-- The chosen tab's panel: an error message or none, and a spinner or the table.
pub record PanelView : Type 0 where
  pub alert : Option String
  pub table : Option Body

abbrev or_table : Bool → Body → Option Body
or_table loading table = if loading then none else some table

unfoldable pub panel_of : Page → Tab → PanelView
unfolding provider_columns deployment_columns key_columns
panel_of p providers = record {
  alert = if truthy p.error_text then some p.error_text else none;
  table = or_table p.loading (
      body provider_property (λ r. r.id) false "No providers yet." provider_columns
        p.provider_rows);
}
panel_of p deployments = record {
  alert = none;
  table = or_table p.loading (
      body (λ r key. "") (λ r. r.id) false "No deployments yet." deployment_columns
        p.deployment_rows);
}
panel_of p keys = record {
  alert = none;
  table =
      or_table p.loading
        (body (λ r key. "") (λ r. r.id) false "No provider keys yet." key_columns p.key_rows);
}
