-- ===== src/Providers/Drawers.antt =====
-- frontend/app/(dashboard)/providers/page.tsx: the inputs of the three drawers, and how the drawers
-- look while something is added, edited or duplicated.
use clever_gate.Prelude.{
  String, Bool, true, false, not, Option, none, some, List, [], ◌∷◌, truthy, map, if◌then◌else◌,
}
use clever_gate.Json.{Json}
use clever_gate.Types.{Provider, Deployment}
use clever_gate.Providers.Forms.{ProviderForm, DeploymentForm, KeyForm, is_none, is_clone, text_of}

-- `v || "litellm"`
abbrev adapter_or_litellm : Option String → String
adapter_or_litellm none = "litellm"
adapter_or_litellm (some v) = if truthy v then v else "litellm"

pub data ProviderInput : Type 0 where
  name_typed : String → ProviderInput
  adapter_chosen : Option String → ProviderInput
  base_url_typed : String → ProviderInput
  config_typed : String → ProviderInput
  enabled_switched : Bool → ProviderInput

unfoldable pub type_provider : ProviderForm → ProviderInput → ProviderForm
type_provider f (name_typed s) = record f { name = s }
type_provider f (adapter_chosen v) = record f { adapter_type = adapter_or_litellm v }
type_provider f (base_url_typed s) = record f { base_url = s }
type_provider f (config_typed s) = record f { config = s }
type_provider f (enabled_switched b) = record f { enabled = b }

-- A number field gives a number, or the empty text.
pub data DeploymentInput : Type 0 where
  provider_chosen : Option String → DeploymentInput
  model_name_typed litellm_model_typed params_typed : String → DeploymentInput
  tpm_typed rpm_typed ctx_typed : Json → DeploymentInput
  switched : Bool → DeploymentInput

-- The provider of a deployment that is edited cannot be changed.
abbrev pub choose_provider : (editing : Bool) → Option String → DeploymentForm → DeploymentForm
choose_provider true v f = f
choose_provider false v f = record f { provider_id = text_of v }

unfoldable pub type_deployment :
    (editing : Bool) → DeploymentForm → DeploymentInput → DeploymentForm
type_deployment editing f (provider_chosen v) = choose_provider editing v f
type_deployment editing f (model_name_typed s) = record f { model_name = s }
type_deployment editing f (litellm_model_typed s) = record f { litellm_model = s }
type_deployment editing f (params_typed s) = record f { params = s }
type_deployment editing f (tpm_typed n) = record f { tpm = n }
type_deployment editing f (rpm_typed n) = record f { rpm = n }
type_deployment editing f (ctx_typed n) = record f { ctx = n }
type_deployment editing f (switched b) = record f { enabled = b }

pub data KeyInput : Type 0 where
  key_provider_chosen : Option String → KeyInput
  label_typed key_value_typed : String → KeyInput

unfoldable pub type_key : KeyForm → KeyInput → KeyForm
type_key f (key_provider_chosen v) = record f { provider_id = text_of v }
type_key f (label_typed s) = record f { label = s }
type_key f (key_value_typed s) = record f { key_value = s }

-- `clone_icon` says whether the drawer's icon is that of a duplicate; `description` stands below the
-- field of the name, which is `marked` for a duplicate; `to` ends the colours of the button.
pub record DrawerView : Type 0 where
  pub title : String
  pub clone_icon : Bool
  pub icon_color : String
  pub description : Option String
  pub marked : Bool
  pub from : String
  pub to : String
  pub button : String
  pub busy : Bool

abbrev pub drawer_title {ℓ} : {A : Type ℓ} → String → String → String → Option A → Option A → String
drawer_title edit duplicate add (some e) clone = edit
drawer_title edit duplicate add none (some c) = duplicate
drawer_title edit duplicate add none none = add

abbrev view_of : String → Bool → (color description to : String) → Bool → DrawerView
view_of title clone color description to busy = record {
  title = title;
  clone_icon = clone;
  icon_color = if clone then "violet" else color;
  description = if clone then some description else none;
  marked = clone;
  from = if clone then "violet" else "brand";
  to = if clone then "indigo" else to;
  button = if clone then "Save Duplicate" else "Save";
  busy = busy;
}

unfoldable pub provider_drawer : Option Provider → Option Provider → (saving : Bool) → DrawerView
provider_drawer editing clone saving =
    view_of (drawer_title "Edit Provider" "Duplicate Provider" "Add Provider" editing clone)
      (is_clone editing clone) "teal" "Give this duplicate a unique name before saving." "teal"
      saving

unfoldable pub deployment_drawer :
    Option Deployment → Option Deployment → (saving : Bool) → DrawerView
deployment_drawer editing clone saving =
    view_of (drawer_title "Edit Deployment" "Duplicate Deployment" "Add Deployment" editing clone)
      (is_clone editing clone) "orange" "Give this duplicate a unique alias before saving." "orange"
      saving

-- The labels of the fields with their texts; a provider that is edited has no choice of an adapter.
unfoldable pub provider_inputs : Option Provider → ProviderForm → List (String × String)
provider_inputs editing f =
    let rest = ("Base URL", f.base_url) ∷ ("Config (JSON)", f.config) ∷ [] in
    ("Name", f.name) ∷ (if is_none editing then ("Adapter Type", f.adapter_type) ∷ rest else rest)

-- The choices of the selector of providers: their values and labels, and whether it is disabled.
unfoldable pub provider_select : Option Deployment → List Provider → List (String × String) × Bool
provider_select editing providers = (map (λ p. (p.id, p.name)) providers, not (is_none editing))
