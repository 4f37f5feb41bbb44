-- ===== src/Providers/Forms/Laws.antt =====
-- Saving a form that was opened and not changed sends the record back.
use clever_gate.Prelude.{
  String, true, false, Option, none, some, [], ◌∷◌, ◌≡◌, refl, ◌<>◌, ◌↔◌, arith,
}
use clever_gate.Json.{Json, Fields, null, bool, str, obj, field, end}
use clever_gate.Types.{Provider, Deployment}
use clever_gate.Api.{Result, ok, err}
use clever_gate.Providers.Forms.{
  Call, post, patch, text_or_null, text_of, ProviderForm, open_provider, provider_call,
  save_provider, Saved, DeploymentForm, save_deployment, submit, submit_parsed, deployment_call,
  done_text,
}

-- The base address that a provider keeps when it is saved: an empty one becomes `null`.
abbrev pub kept_url : Option String → Json
kept_url none = null
kept_url (some u) = text_or_null u

pub kept_url-text_of : (u : Option String) → text_or_null (text_of u) ≡ kept_url u
kept_url-text_of none = refl
kept_url-text_of (some u) = refl

module _ (stringify : Json → String) (parse : String → Option Json) where
  -- What `JSON.parse` promises of the text that `JSON.stringify` writes for an object.
  abbrev pub ReadsBack : Fields → Type 0
  ReadsBack fs = parse (stringify (obj fs)) ≡ some (obj fs)

  -- A provider's fields as the drawer sends them.
  abbrev pub new_body : Provider → Json
  new_body p = obj (
      field "name" (str p.name) (
        field "adapter_type" (str p.adapter_type) (
          field "base_url" (kept_url p.base_url)
            (field "config" (obj p.config) (field "is_enabled" (bool p.is_enabled) end)))))

  abbrev pub edit_body : Provider → Json
  edit_body p = obj (
      field "name" (str p.name) (
        field "base_url" (kept_url p.base_url)
          (field "config" (obj p.config) (field "is_enabled" (bool p.is_enabled) end))))

  -- A duplicate that is saved as it was opened is created with all of its template's fields, and
  -- an edited provider that was not changed is patched with its own, where `JSON.parse` reads
  -- back the text of its configuration; an empty address counts as none.
  pub save_provider_unchanged :
      (send : Call → Result (Option Json)) (p : Provider) (clone : Option Provider)
      → ReadsBack p.config
      → (save_provider parse send none (some p) (open_provider stringify none (some p))
          ≡ submit send (post "/api/admin/providers" (new_body p)) "Provider duplicated")
        × (save_provider parse send (some p) clone (open_provider stringify (some p) clone)
            ≡ submit send (patch ("/api/admin/providers/" <> p.id) (edit_body p)) "Provider saved")
  unfolding save_provider open_provider
  save_provider_unchanged send p clone reads = (
    rw (reads, save_provider, kept_url-text_of p.base_url),
    rw (reads, save_provider, kept_url-text_of p.base_url),
  )

pub submit_outcome :
    (send : Call → Result (Option Json)) (call : Call) (text : String)
    → let s = submit send call text in
      (s.saving ≡ false)
      × (s.calls ≡ call ∷ [])
      × ((s.is_saved ≡ true) ↔ ((r : Option Json) × (send call ≡ ok r)))
submit_outcome send call text = go (send call) refl
  where
    go :
        (r : Result (Option Json))
        → send call ≡ r
        → let s = submit send call text in
          (s.saving ≡ false)
          × (s.calls ≡ call ∷ [])
          × ((s.is_saved ≡ true) ↔ ((r : Option Json) × (send call ≡ ok r)))
    go (ok v) e = (ground arith, ground arith, (λ h. (v, e), λ h. ground arith))
    go (err f) e = (ground arith, ground arith, (λ h. ground arith, λ h. cc (h.1)))

-- What a form promises for the parsed text: nothing is sent for a text that is not JSON.
abbrev pub Outcome : (Call → Result (Option Json)) → (Json → Call) → Option Json → Saved → Type 0
Outcome send call none s = (s.saving ≡ false) × (s.calls ≡ []) × (s.is_saved ≡ false)
Outcome send call (some v) s =
    (s.saving ≡ false)
    × (s.calls ≡ call v ∷ [])
    × ((s.is_saved ≡ true) ↔ ((r : Option Json) × (send (call v) ≡ ok r)))

submit_parsed-Outcome :
    (send : Call → Result (Option Json)) (bad : String) (call : Json → Call) (text : String)
    (o : Option Json)
    → Outcome send call o (submit_parsed send bad call text o)
submit_parsed-Outcome send bad call text none = (refl, refl, refl)
submit_parsed-Outcome send bad call text (some w) = submit_outcome send (call w) text

-- Saving a provider or a deployment never leaves the button busy. A text that is not JSON sends
-- nothing and saves nothing; else one request is sent, and the drawer counts as saved exactly when
-- that request succeeds.
pub save-Outcome :
    (parse : String → Option Json) (send : Call → Result (Option Json))
    (editing clone : Option Provider) (f : ProviderForm) (edited template : Option Deployment)
    (g : DeploymentForm)
    → Outcome send
        (provider_call editing f)
        (parse f.config)
        (save_provider parse send editing clone f)
      × Outcome send
          (deployment_call edited g)
          (parse g.params)
          (save_deployment parse send edited template g)
unfolding save_provider save_deployment
save-Outcome parse send editing clone f edited template g = (
  submit_parsed-Outcome send "Invalid JSON in config" (provider_call editing f)
      (done_text "Provider" editing clone) (parse f.config),
  submit_parsed-Outcome send "Invalid JSON" (deployment_call edited g)
      (done_text "Deployment" edited template) (parse g.params),
)
