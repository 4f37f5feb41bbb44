-- ===== src/Providers/Forms.antt =====
-- frontend/app/(dashboard)/providers/page.tsx: the drawers in which providers, deployments and
-- provider keys are written. `stringify` is `JSON.stringify(v, null, 2)` and `parse` is
-- `JSON.parse`, which is `none` where it throws.
pub mod Laws
use clever_gate.Prelude.{
  ℕ, String, Bool, true, false, not, ◌&&◌, Option, none, some, List, [], ◌∷◌, ◌++◌, ◌≡◌, refl, ◌<>◌,
  truthy, or_null, nat_eq, if◌then◌else◌,
}
use clever_gate.Json.{Json, Fields, value, is_truthy, null, bool, num, str, obj, field, end}
use clever_gate.Show.{show_nat}
use clever_gate.Types.{Provider, Deployment, ProviderKey}
use clever_gate.Api.{Result, ok, err, message}

-- What a form sends, and what it tells the user.
pub data Call : Type 0 where
  post patch : (path : String) (body : Json) → Call

pub data Notice : Type 0 where
  success error : String → Notice

-- `s || null`, and `n || null` of a number field, which holds a number or a text.
abbrev pub text_or_null : String → Json
text_or_null s = if truthy s then str s else null

abbrev pub number_or_null : Json → Json
number_or_null v = if is_truthy (value v) then v else null

-- `n ?? ""`
abbrev pub number_or_empty : Option ℕ → Json
number_or_empty none = str ""
number_or_empty (some n) = num (show_nat n)

abbrev pub is_none {ℓ} : {A : Type ℓ} → Option A → Bool
is_none none = true
is_none (some a) = false

-- `editing ?? clone ?? null`
abbrev pub source_of {ℓ} : {A : Type ℓ} → Option A → Option A → Option A
source_of none clone = clone
source_of (some e) clone = some e

-- `!editing && !!clone`
abbrev pub is_clone {ℓ} : {A : Type ℓ} → Option A → Option A → Bool
is_clone editing clone = is_none editing && not (is_none clone)

abbrev pub text_of : Option String → String
text_of none = ""
text_of (some s) = s

pub record ProviderForm : Type 0 where
  pub name : String
  pub adapter_type : String
  pub base_url : String
  pub config : String
  pub enabled : Bool

pub record DeploymentForm : Type 0 where
  pub provider_id : String
  pub model_name : String
  pub litellm_model : String
  pub params : String
  pub tpm : Json
  pub rpm : Json
  pub ctx : Json
  pub enabled : Bool

abbrev first_id : List Provider → String
first_id [] = ""
first_id (p ∷ ps) = p.id

module _ (stringify : Json → String) where
  -- The effect that fills the form when the drawer opens.
  abbrev pub provider_fields : Option Provider → ProviderForm
  provider_fields none = record {
    name = "";
    adapter_type = "litellm";
    base_url = "";
    config = "{}";
    enabled = true;
  }
  provider_fields (some p) = record {
    name = p.name;
    adapter_type = p.adapter_type;
    base_url = text_of p.base_url;
    config = stringify (obj p.config);
    enabled = p.is_enabled;
  }

  unfoldable pub open_provider : Option Provider → Option Provider → ProviderForm
  open_provider editing clone = provider_fields (source_of editing clone)

  abbrev pub deployment_fields : List Provider → Option Deployment → DeploymentForm
  deployment_fields providers none = record {
    provider_id = first_id providers;
    model_name = "";
    litellm_model = "";
    params = "{}";
    tpm = str "";
    rpm = str "";
    ctx = str "";
    enabled = true;
  }
  deployment_fields providers (some d) = record {
    provider_id = d.provider_id;
    model_name = d.model_name;
    litellm_model = d.litellm_model;
    params = stringify (obj d.litellm_params);
    tpm = number_or_empty d.tpm;
    rpm = number_or_empty d.rpm;
    ctx = number_or_empty d.context_window;
    enabled = d.is_enabled;
  }

  unfoldable pub open_deployment :
      List Provider → Option Deployment → Option Deployment → DeploymentForm
  open_deployment providers editing clone = deployment_fields providers (source_of editing clone)

abbrev pub done_text {ℓ} : {A : Type ℓ} → String → Option A → Option A → String
done_text thing (some e) clone = thing <> " saved"
done_text thing none (some c) = thing <> " duplicated"
done_text thing none none = thing <> " created"

-- The requests of `handleSave`, once the JSON text is parsed.
unfoldable pub provider_call : Option Provider → ProviderForm → Json → Call
provider_call (some e) f parsed = patch ("/api/admin/providers/" <> e.id) (
    obj (
      field "name" (str f.name) (
        field "base_url" (text_or_null f.base_url)
          (field "config" parsed (field "is_enabled" (bool f.enabled) end)))))
provider_call none f parsed = post "/api/admin/providers" (
    obj (
      field "name" (str f.name) (
        field "adapter_type" (str f.adapter_type) (
          field "base_url" (text_or_null f.base_url)
            (field "config" parsed (field "is_enabled" (bool f.enabled) end))))))

abbrev deployment_body : DeploymentForm → Json → Json
deployment_body f parsed = obj (
    field "provider_id" (str f.provider_id) (
      field "model_name" (str f.model_name) (
        field "litellm_model" (str f.litellm_model) (
          field "litellm_params" parsed (
            field "tpm" (number_or_null f.tpm) (
              field "rpm" (number_or_null f.rpm) (
                field "context_window" (number_or_null f.ctx)
                  (field "is_enabled" (bool f.enabled) end))))))))

unfoldable pub deployment_call : Option Deployment → DeploymentForm → Json → Call
deployment_call (some e) f parsed =
    patch ("/api/admin/deployments/" <> e.id) (deployment_body f parsed)
deployment_call none f parsed = post "/api/admin/deployments" (deployment_body f parsed)

-- What one `handleSave` does: the requests that it sends, the notice, whether `onSaved` is
-- called, and whether the button is still marked as busy at the end.
pub record Saved : Type 0 where
  pub calls : List Call
  pub notice : Notice
  pub is_saved : Bool
  pub saving : Bool

-- The call is made, and its outcome told.
abbrev pub submit : (Call → Result (Option Json)) → Call → String → Saved
submit send call text = elim (send call) [
  | ok v ↦ record { calls = call ∷ []; notice = success text; is_saved = true; saving = false }
  | err e ↦ record {
    calls = call ∷ [];
    notice = error (message e);
    is_saved = false;
    saving = false;
  }
]

abbrev pub invalid : String → Saved
invalid text = record { calls = []; notice = error text; is_saved = false; saving = false }

-- A text that is not JSON ends the saving with a notice.
abbrev pub submit_parsed :
    (Call → Result (Option Json)) → String → (Json → Call) → String → Option Json → Saved
submit_parsed send bad call text none = invalid bad
submit_parsed send bad call text (some v) = submit send (call v) text

module _ (parse : String → Option Json) (send : Call → Result (Option Json)) where
  unfoldable pub save_provider : Option Provider → Option Provider → ProviderForm → Saved
  unfolding provider_call
  save_provider editing clone f =
      submit_parsed send "Invalid JSON in config" (provider_call editing f)
        (done_text "Provider" editing clone) (parse f.config)

  unfoldable pub save_deployment : Option Deployment → Option Deployment → DeploymentForm → Saved
  unfolding deployment_call
  save_deployment editing clone f =
      submit_parsed send "Invalid JSON" (deployment_call editing f)
        (done_text "Deployment" editing clone) (parse f.params)

-- The drawer of provider keys.
pub record KeyForm : Type 0 where
  pub provider_id : String
  pub label : String
  pub key_value : String

unfoldable pub open_key : List Provider → KeyForm
open_key providers = record { provider_id = first_id providers; label = ""; key_value = "" }

unfoldable pub key_call : KeyForm → Call
key_call f = post "/api/admin/provider-keys" (
    obj (
      field "provider_id" (str f.provider_id)
        (field "label" (str f.label) (field "key_value" (str f.key_value) end))))

unfoldable pub save_key : (Call → Result (Option Json)) → KeyForm → Saved
save_key send f = submit send (key_call f) "Provider key saved"
