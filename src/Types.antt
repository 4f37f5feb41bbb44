-- ===== src/Types.antt =====
-- frontend/lib/types.ts: the shapes of the API's data. `T | null` is `Option T`. A JSON object of
-- any shape (`Record<string, unknown>`) is `Fields`; amounts of money are numbers of a type of
-- their own, which the pages only hand on.
use clever_gate.Prelude.{ℕ, String, Bool, Option, List}
use clever_gate.Json.{Fields}

pub record TokenResponse : Type 0 where
  pub access_token : String
  pub refresh_token : String
  pub token_type : String
  pub expires_in : ℕ

pub record AdminUser : Type 0 where
  pub id : String
  pub username : String
  pub email : String
  pub is_admin : Bool
  pub first_name : Option String
  pub last_name : Option String

pub record User : Type 0 where
  pub id : String
  pub username : String
  pub email : String
  pub first_name : Option String
  pub last_name : Option String
  pub is_active : Bool
  pub is_admin : Bool
  pub created_at : String
  pub last_login_at : Option String

pub record Provider : Type 0 where
  pub id : String
  pub name : String
  pub adapter_type : String
  pub base_url : Option String
  pub config : Fields
  pub is_enabled : Bool
  pub created_at : String
  pub updated_at : String

pub record Deployment : Type 0 where
  pub id : String
  pub provider_id : String
  pub model_name : String
  pub litellm_model : String
  pub litellm_params : Fields
  pub tpm : Option ℕ
  pub rpm : Option ℕ
  pub context_window : Option ℕ
  pub is_enabled : Bool
  pub priority : ℕ
  pub created_at : String
  pub updated_at : String

pub record ProviderKey : Type 0 where
  pub id : String
  pub provider_id : String
  pub label : String
  pub key_prefix : String
  pub is_enabled : Bool
  pub created_at : String

pub record ApiKey : Type 0 where
  pub id : String
  pub key_prefix : String
  pub name : Option String
  pub user_id : String
  pub team_id : Option String
  pub allowed_models : Option (List String)
  pub is_active : Bool
  pub expires_at : Option String
  pub created_at : String
  pub last_used_at : Option String

-- `ApiKeyCreated extends ApiKey`
pub record ApiKeyCreated : Type 0 where
  pub base : ApiKey
  pub key : String

pub record CacheStats : Type 0 where
  pub total_entries : ℕ
  pub total_hits : ℕ

pub record Setting : Type 0 where
  pub key : String
  pub value : Fields
  pub description : Option String

pub record Pagination : Type 0 where
  pub page : ℕ
  pub page_size : ℕ
  pub total : ℕ
  pub total_pages : ℕ

pub record Paginated {ℓ} (T : Type ℓ) : Type ℓ where
  pub items : List T
  pub pagination : Pagination

pub record ApiError : Type 0 where
  pub message : String
  pub type : Option String
  pub code : Option String

pub record SystemLog : Type 0 where
  pub id : String
  pub timestamp : String
  pub level : String
  pub logger_name : String
  pub message : String
  pub context : Fields

pub record ProviderHealthItem : Type 0 where
  pub deployment_id : String
  pub model_name : String
  pub is_open : Bool
  pub fails : ℕ
  pub cooldown_remaining : ℕ

-- The records that hold an amount of money, over the type of such amounts.
module _ (Money : Type 0) where
  pub record DeploymentInfo : Type 0 where
    pub deployment_id : String
    pub model_name : String
    pub litellm_model : String
    pub max_input_tokens : Option ℕ
    pub max_output_tokens : Option ℕ
    pub input_cost_per_token : Option Money
    pub output_cost_per_token : Option Money
    pub supports_streaming : Option Bool
    pub supports_function_calling : Option Bool
    pub supports_vision : Option Bool
    pub requests : ℕ
    pub prompt_tokens : ℕ
    pub completion_tokens : ℕ
    pub cost_usd : Money

  pub record ProviderInfo : Type 0 where
    pub provider_id : String
    pub provider_name : String
    pub total_requests : ℕ
    pub total_tokens : ℕ
    pub total_cost_usd : Money
    pub deployments : List DeploymentInfo

  -- Rates and times are fractions too.
  pub record DashboardMetrics : Type 0 where
    pub total_requests : ℕ
    pub total_tokens : ℕ
    pub total_cost_usd : Money
    pub cache_hit_rate : Money
    pub active_keys : ℕ
    pub error_rate : Money
    pub rps : Money
    pub avg_latency_ms : Money

  pub record RequestLog : Type 0 where
    pub id : String
    pub request_id : String
    pub api_key_id : Option String
    pub user_id : Option String
    pub model : Option String
    pub deployment_id : Option String
    pub provider_id : Option String
    pub is_stream : Option Bool
    pub prompt_tokens : Option ℕ
    pub completion_tokens : Option ℕ
    pub total_tokens : Option ℕ
    pub cost_usd : Option Money
    pub latency_ms : Option ℕ
    pub status_code : Option ℕ
    pub error_class : Option String
    pub cache_hit : Bool
    pub created_at : Option String

  pub record SpendRecord : Type 0 where
    pub id : String
    pub request_log_id : String
    pub user_id : Option String
    pub team_id : Option String
    pub provider_id : Option String
    pub model : Option String
    pub prompt_tokens : Option ℕ
    pub completion_tokens : Option ℕ
    pub cost_usd : Option Money
    pub created_at : Option String
