-- ===== src/Schemas.antt =====
-- backend/app/schemas/admin.py: the shapes that the server declares for the bodies that the panel's
-- forms send. How it checks a body is its library's: `accepts` only says that a body is of the
-- declared types, read strictly. `is_uuid` says which texts are UUIDs.
pub mod Laws
use clever_gate.Prelude.{
  ℕ, ◌||◌, strip_prefix, String, Bool, true, false, not, ◌&&◌, Option, none, some, List, [], ◌∷◌,
  is_some,
}
use clever_gate.Json.{Json, Items, nil, cons, Fields, null, bool, num, str, arr, obj, find_field}
use clever_gate.Show.{parse_digits}

-- `str`, `bool`, `int`, `uuid.UUID`, `dict[str, Any]`, `list[str]` and `… | None`.
pub data Shape : Type 0 where
  text flag integer uuid dict texts : Shape
  optional : Shape → Shape

abbrev digits_after : Option String → Option ℕ
digits_after none = none
digits_after (some s) = parse_digits s

abbrev pub all_texts : Items → Bool
all_texts nil = true
all_texts (cons (str s) rest) = all_texts rest
all_texts (cons v rest) = false

-- The text of a whole number.
abbrev pub is_integer : String → Bool
is_integer s = is_some (parse_digits s) || is_some (digits_after (strip_prefix "-" s))

-- A field's name, its declared type, and whether it may be missing.
pub record Declared : Type 0 where
  pub name : String
  pub shape : Shape
  pub has_default : Bool

abbrev required : String → Shape → Declared
required name shape = record { name = name; shape = shape; has_default = false }

abbrev defaulted : String → Shape → Declared
defaulted name shape = record { name = name; shape = shape; has_default = true }

module _ (is_uuid : String → Bool) where
  abbrev pub fits : Shape → Json → Bool
  fits text (str s) = true
  fits text v = false
  fits flag (bool b) = true
  fits flag v = false
  fits integer (num n) = is_integer n
  fits integer v = false
  fits uuid (str s) = is_uuid s
  fits uuid v = false
  fits dict (obj fs) = true
  fits dict v = false
  fits texts (arr xs) = all_texts xs
  fits texts v = false
  fits (optional s) null = true
  fits (optional s) v = fits s v

  abbrev fits_field : Declared → Option Json → Bool
  fits_field d none = d.has_default
  fits_field d (some v) = fits d.shape v

  abbrev fits_all : List Declared → Fields → Bool
  fits_all [] fs = true
  fits_all (d ∷ ds) fs = fits_field d (find_field d.name fs) && fits_all ds fs

  unfoldable pub accepts : List Declared → Json → Bool
  unfolding find_field
  accepts ds (obj fs) = fits_all ds fs
  accepts ds v = false

unfoldable pub login_request : List Declared
login_request =
    required "username" text ∷ required "password" text ∷ defaulted "totp_code" (optional text) ∷ []

unfoldable pub user_create : List Declared
user_create =
    required "username" text
    ∷ required "email" text
    ∷ required "password" text
    ∷ defaulted "first_name" (optional text)
    ∷ defaulted "last_name" (optional text)
    ∷ defaulted "is_admin" flag
    ∷ defaulted "is_active" flag
    ∷ []

unfoldable pub user_update : List Declared
user_update =
    defaulted "first_name" (optional text)
    ∷ defaulted "last_name" (optional text)
    ∷ defaulted "is_active" (optional flag)
    ∷ defaulted "is_admin" (optional flag)
    ∷ []

unfoldable pub provider_create : List Declared
provider_create =
    required "name" text
    ∷ defaulted "adapter_type" text
    ∷ defaulted "base_url" (optional text)
    ∷ defaulted "config" dict
    ∷ defaulted "is_enabled" flag
    ∷ []

unfoldable pub provider_update : List Declared
provider_update =
    defaulted "name" (optional text)
    ∷ defaulted "base_url" (optional text)
    ∷ defaulted "config" (optional dict)
    ∷ defaulted "is_enabled" (optional flag)
    ∷ []

unfoldable pub deployment_create : List Declared
deployment_create =
    required "provider_id" uuid
    ∷ required "model_name" text
    ∷ required "litellm_model" text
    ∷ defaulted "litellm_params" dict
    ∷ defaulted "tpm" (optional integer)
    ∷ defaulted "rpm" (optional integer)
    ∷ defaulted "context_window" (optional integer)
    ∷ defaulted "is_enabled" flag
    ∷ defaulted "priority" integer
    ∷ []

unfoldable pub deployment_update : List Declared
deployment_update =
    defaulted "model_name" (optional text)
    ∷ defaulted "litellm_model" (optional text)
    ∷ defaulted "litellm_params" (optional dict)
    ∷ defaulted "tpm" (optional integer)
    ∷ defaulted "rpm" (optional integer)
    ∷ defaulted "context_window" (optional integer)
    ∷ defaulted "is_enabled" (optional flag)
    ∷ defaulted "priority" (optional integer)
    ∷ []

unfoldable pub provider_key_create : List Declared
provider_key_create =
    required "provider_id" uuid ∷ required "label" text ∷ required "key_value" text ∷ []

-- Without `expires_at`, which no form sends and which may be missing.
unfoldable pub api_key_create : List Declared
api_key_create =
    required "user_id" uuid
    ∷ defaulted "name" (optional text)
    ∷ defaulted "team_id" (optional uuid)
    ∷ defaulted "allowed_models" (optional texts)
    ∷ []
