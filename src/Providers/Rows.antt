-- ===== src/Providers/Rows.antt =====
-- frontend/app/(dashboard)/providers/page.tsx: the texts of the three tables' rows.
use clever_gate.Prelude.{ℕ, String, Bool, Option, none, some, ◌<>◌, truthy, if◌then◌else◌}
use clever_gate.Show.{show_nat}
use clever_gate.Types.{Provider, Deployment, ProviderKey}

abbrev pub status_text : Bool → String
status_text enabled = if enabled then "enabled" else "disabled"

-- `p.base_url || "—"`
abbrev pub url_text : Option String → String
url_text none = "—"
url_text (some u) = if truthy u then u else "—"

-- `n ?? "—"`
abbrev pub limit_text : Option ℕ → String
limit_text none = "—"
limit_text (some n) = show_nat n

pub record ProviderRow : Type 0 where
  pub name : String
  pub adapter : String
  pub base_url : String
  pub status : String

unfoldable pub provider_row : Provider → ProviderRow
provider_row p = record {
  name = p.name;
  adapter = p.adapter_type;
  base_url = url_text p.base_url;
  status = status_text p.is_enabled;
}

pub record DeploymentRow : Type 0 where
  pub model : String
  pub litellm_model : String
  pub limits : String
  pub context : String
  pub status : String

unfoldable pub deployment_row : Deployment → DeploymentRow
deployment_row d = record {
  model = d.model_name;
  litellm_model = d.litellm_model;
  limits = limit_text d.tpm <> " / " <> limit_text d.rpm;
  context = limit_text d.context_window;
  status = status_text d.is_enabled;
}

pub record KeyRow : Type 0 where
  pub label : String
  pub prefix : String
  pub status : String

unfoldable pub key_row : ProviderKey → KeyRow
key_row k = record { label = k.label; prefix = k.key_prefix; status = status_text k.is_enabled }
