-- ===== src/Schemas/Laws.antt =====
-- The bodies that the forms send, and the shapes that the server accepts.
use clever_gate.Prelude.{
  String, Bool, true, false, not, ◌||◌, ◌&&◌, Option, none, some, List, [], ◌∷◌, ◌≡◌, refl, arith,
  Bool-cases, inl, inr,
}
use clever_gate.Json.{Json, null, bool, num, str, arr, obj, value, is_truthy, find_field}
use clever_gate.Types.{Provider, Deployment, User}
use clever_gate.Auth.{login_body, json_or_null, some_text}
use clever_gate.Keys.{KeyForm, key_body, allowed_models, items_of, models_json}
use clever_gate.Users.{UserForm, user_call}
use clever_gate.Providers.Forms
use clever_gate.Providers.Forms.{
  Call, post, patch, ProviderForm, DeploymentForm, provider_call, deployment_call, key_call,
  text_or_null, number_or_null,
}
use clever_gate.Schemas.{
  fits, text, texts, all_texts, integer, dict, optional, accepts, login_request, user_create,
  user_update, provider_create, provider_update, deployment_create, deployment_update,
  provider_key_create, api_key_create,
}

abbrev pub body_of : Call → Json
body_of (post path body) = body
body_of (patch path body) = body

-- The schema of a request that adds something, or that changes it.
abbrev pub one_of {ℓ κ} : {A : Type ℓ} {B : Type κ} → Option A → B → B → B
one_of none create update = create
one_of (some a) create update = update

module _ (is_uuid : String → Bool) where
  text_or_null-fits : (s : String) → fits is_uuid (optional text) (text_or_null s) ≡ true
  text_or_null-fits s = ground arith

  abbrev pub is_dict : Json → Bool
  is_dict v = fits is_uuid dict v

  user_call-accepts :
      (editing : Option User) (f : UserForm)
      → accepts is_uuid (one_of editing user_create user_update) (body_of (user_call editing f))
        ≡ true
  unfolding accepts find_field user_create user_update user_call
  user_call-accepts none f = simp (text_or_null-fits f.first_name, text_or_null-fits f.last_name)
  user_call-accepts (some u) f =
      simp (text_or_null-fits f.first_name, text_or_null-fits f.last_name)

  -- A whole number, or an entry that counts as none.
  abbrev pub is_limit : Json → Bool
  is_limit v = not (is_truthy (value v)) || fits is_uuid integer v

  fits_given :
      (v : Json)
      → is_truthy (value v) ≡ true
      → fits is_uuid (optional integer) v ≡ fits is_uuid integer v
  unfolding is_truthy
  fits_given null h = cc
  fits_given (bool b) h = refl
  fits_given (num n) h = refl
  fits_given (str s) h = refl
  fits_given (arr xs) h = refl
  fits_given (obj fs) h = refl

  number_or_null-fits : (v : Json) → fits is_uuid (optional integer) (number_or_null v) ≡ is_limit v
  number_or_null-fits v = elim (Bool-cases (is_truthy (value v))) [
    | inl given ↦ rw given (fits_given v given)
    | inr empty ↦ rw empty refl
  ]

  and_true : (b : Bool) → (b && true) ≡ b
  and_true true = refl
  and_true false = refl

  provider_call-accepts :
      (editing : Option Provider) (f : ProviderForm) (parsed : Json)
      → accepts is_uuid
          (one_of editing provider_create provider_update)
          (body_of (provider_call editing f parsed))
        ≡ fits is_uuid (one_of editing dict (optional dict)) parsed
  unfolding accepts find_field provider_create provider_update provider_call
  provider_call-accepts none f parsed = simp (text_or_null-fits f.base_url, and_true)
  provider_call-accepts (some p) f parsed = simp (text_or_null-fits f.base_url, and_true)

  deployment_call-accepts :
      (editing : Option Deployment) (f : DeploymentForm) (parsed : Json)
      → accepts is_uuid
          (one_of editing deployment_create deployment_update)
          (body_of (deployment_call editing f parsed))
        ≡ (one_of editing (is_uuid f.provider_id) true
            && (fits is_uuid (one_of editing dict (optional dict)) parsed
                && (is_limit f.tpm && (is_limit f.rpm && is_limit f.ctx))))
  unfolding accepts find_field deployment_create deployment_update deployment_call
  deployment_call-accepts none f parsed =
      simp
        (number_or_null-fits f.tpm, number_or_null-fits f.rpm, number_or_null-fits f.ctx, and_true)
  deployment_call-accepts (some d) f parsed =
      simp
        (number_or_null-fits f.tpm, number_or_null-fits f.rpm, number_or_null-fits f.ctx, and_true)

  all_texts-items_of : (ss : List String) → all_texts (items_of ss) ≡ true
  all_texts-items_of [] = refl
  all_texts-items_of (s ∷ ss) = all_texts-items_of ss

  models_json-fits :
      (ms : Option (List String)) → fits is_uuid (optional texts) (models_json ms) ≡ true
  models_json-fits none = refl
  models_json-fits (some ms) = all_texts-items_of ms

  key_body-accepts : (f : KeyForm) → accepts is_uuid api_key_create (key_body f) ≡ is_uuid f.user_id
  unfolding accepts find_field api_key_create key_body
  key_body-accepts f =
      simp (text_or_null-fits f.name, models_json-fits (allowed_models f.models), and_true)

  key_call-accepts :
      (f : Forms.KeyForm)
      → accepts is_uuid provider_key_create (body_of (key_call f)) ≡ is_uuid f.provider_id
  unfolding accepts find_field provider_key_create key_call
  key_call-accepts f = simp (and_true)

  totp-fits : (t : Option String) → fits is_uuid (optional text) (json_or_null (some_text t)) ≡ true
  totp-fits none = refl
  totp-fits (some s) = ground arith

  login_body-accepts :
      (username password : String) (totp : Option String)
      → accepts is_uuid login_request (login_body username password totp) ≡ true
  unfolding accepts find_field login_request login_body
  login_body-accepts username password totp = simp (totp-fits totp)

  -- What the panel's forms send has the shapes that the server declares. A login and a user always
  -- have; a virtual key and a provider's key exactly where the chosen id is a UUID. A provider has
  -- exactly where the parsed text of its configuration is an object, or `null` when it is edited; a
  -- deployment likewise, where each of its three limits that is not left empty or 0 is a whole number
  -- too, and where it is new its provider's id a UUID.
  pub bodies-accepts :
      (username password : String) (totp : Option String) (user : Option User)
      (user_form : UserForm) (key_form : KeyForm) (provider_key : Forms.KeyForm)
      (provider : Option Provider) (provider_form : ProviderForm) (deployment : Option Deployment)
      (deployment_form : DeploymentForm) (parsed : Json)
      → (accepts is_uuid login_request (login_body username password totp) ≡ true)
        × (accepts is_uuid
              (one_of user user_create user_update)
              (body_of (user_call user user_form))
            ≡ true)
        × (accepts is_uuid api_key_create (key_body key_form) ≡ is_uuid key_form.user_id)
        × (accepts is_uuid provider_key_create (body_of (key_call provider_key))
            ≡ is_uuid provider_key.provider_id)
        × (accepts is_uuid
              (one_of provider provider_create provider_update)
              (body_of (provider_call provider provider_form parsed))
            ≡ fits is_uuid (one_of provider dict (optional dict)) parsed)
        × (accepts is_uuid
              (one_of deployment deployment_create deployment_update)
              (body_of (deployment_call deployment deployment_form parsed))
            ≡ (one_of deployment (is_uuid deployment_form.provider_id) true
                && (fits is_uuid (one_of deployment dict (optional dict)) parsed
                    && (is_limit deployment_form.tpm
                        && (is_limit deployment_form.rpm && is_limit deployment_form.ctx)))))
  bodies-accepts username password totp user user_form key_form provider_key provider provider_form
        deployment deployment_form parsed =
      (
        login_body-accepts username password totp,
        user_call-accepts user user_form,
        key_body-accepts key_form,
        key_call-accepts provider_key,
        provider_call-accepts provider provider_form parsed,
        deployment_call-accepts deployment deployment_form parsed,
      )
