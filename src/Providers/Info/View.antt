-- ===== src/Providers/Info/View.antt =====
-- frontend/app/(dashboard)/providers/page.tsx: what the info drawer shows, and the helpers that
-- write its numbers. `quotient n d k` is `(n / d).toFixed(k)` of two whole numbers.
use clever_gate.Prelude.{
  ℕ, ◌+◌, String, Bool, true, false, Option, none, some, List, [], ◌∷◌, ◌<>◌, truthy, length, any,
  nat_eq, leb, if◌then◌else◌,
}
use clever_gate.Show.{show_nat}
use clever_gate.Types.{DeploymentInfo, ProviderInfo}
use clever_gate.Providers.Info.{Drawer}

-- What the helpers use of an amount of money.
pub record Amounts (Money : Type 0) : Type 0 where
  pub is_zero : Money → Bool
  pub is_below_cent : Money → Bool
  pub per_million : Money → Money
  pub to_fixed : Money → ℕ → String

module _ (quotient : ℕ → ℕ → ℕ → String) where
  unfoldable pub fmt_num : ℕ → String
  fmt_num n =
      if leb 1000000 n
      then quotient n 1000000 2 <> "M"
      else if leb 1000 n
      then quotient n 1000 1 <> "K"
      else show_nat n

module _ {Money : Type 0} (amounts : Amounts Money) where
  unfoldable pub fmt_cost : Money → String
  fmt_cost n =
      if amounts.is_zero n
      then "$0.00"
      else if amounts.is_below_cent n
      then "$" <> amounts.to_fixed n 6
      else "$" <> amounts.to_fixed n 4

  unfoldable pub cost_per_1m : Option Money → String
  cost_per_1m none = "—"
  cost_per_1m (some per_token) = "$" <> amounts.to_fixed (amounts.per_million per_token) 3

-- A badge's variant, colour and text.
pub record SupportBadge : Type 0 where
  pub variant : String
  pub color : String
  pub text : String

unfoldable pub support_badge : Option Bool → String → SupportBadge
support_badge none label = record { variant = "outline"; color = "gray"; text = "—" }
support_badge (some v) label = record {
  variant = "light";
  color = if v then "teal" else "gray";
  text = label;
}

-- A card's label and value.
pub record StatCard : Type 0 where
  pub label : String
  pub value : String
  pub color : String

pub record InfoRow : Type 0 where
  pub model : String
  pub litellm_model : String
  pub context : String
  pub input_cost : String
  pub output_cost : String
  pub capabilities : List SupportBadge
  pub requests : String
  pub tokens : String
  pub token_parts : String
  pub cost : String

-- Below the cards: two grey boxes, the table, or the remark that there are no deployments.
pub data Deployments : Type 0 where
  skeletons : Deployments
  table : List InfoRow → Deployments
  nothing_configured : Deployments

-- A value of `none` is a grey box.
pub record View : Type 0 where
  pub title : String
  pub alert : Option String
  pub cards : List (String × Option String)
  pub deployments : Deployments
  pub has_note : Bool

-- `dep.max_input_tokens ? fmtNum(dep.max_input_tokens) : "—"`
abbrev context_text : (ℕ → String) → Option ℕ → String
context_text fmt none = "—"
context_text fmt (some n) = if nat_eq n 0 then "—" else fmt n

abbrev is_given {ℓ} : {A : Type ℓ} → Option A → Bool
is_given none = false
is_given (some a) = true

module _ {Money : Type 0} (quotient : ℕ → ℕ → ℕ → String) (amounts : Amounts Money) where
  unfoldable pub stat_cards : Option (ProviderInfo Money) → List StatCard
  unfolding fmt_num fmt_cost
  stat_cards none =
      record { label = "Total Requests"; value = "—"; color = "#3f72af" }
      ∷ record { label = "Total Tokens"; value = "—"; color = "#0d9488" }
      ∷ record { label = "Total Cost"; value = "—"; color = "#d97706" }
      ∷ []
  stat_cards (some info) =
      record {
        label = "Total Requests";
        value = fmt_num quotient info.total_requests;
        color = "#3f72af";
      }
      ∷ record {
        label = "Total Tokens";
        value = fmt_num quotient info.total_tokens;
        color = "#0d9488";
      }
      ∷ record {
        label = "Total Cost";
        value = fmt_cost amounts info.total_cost_usd;
        color = "#d97706";
      }
      ∷ []

  unfoldable pub info_row : DeploymentInfo Money → InfoRow
  info_row dep = record {
    model = dep.model_name;
    litellm_model = dep.litellm_model;
    context = context_text (fmt_num quotient) dep.max_input_tokens;
    input_cost = cost_per_1m amounts dep.input_cost_per_token;
    output_cost = cost_per_1m amounts dep.output_cost_per_token;
    capabilities =
        support_badge dep.supports_streaming "Stream"
        ∷ support_badge dep.supports_function_calling "Fn Call"
        ∷ support_badge dep.supports_vision "Vision"
        ∷ [];
    requests = fmt_num quotient dep.requests;
    tokens = fmt_num quotient (dep.prompt_tokens + dep.completion_tokens);
    token_parts =
        fmt_num quotient dep.prompt_tokens <> "↑ " <> fmt_num quotient dep.completion_tokens <> "↓";
    cost = fmt_cost amounts dep.cost_usd;
  }

  abbrev info_rows : List (DeploymentInfo Money) → List InfoRow
  info_rows [] = []
  info_rows (dep ∷ deps) = info_row dep ∷ info_rows deps

  abbrev pub deployments_of : Bool → Option (ProviderInfo Money) → Deployments
  deployments_of true info = skeletons
  deployments_of false none = nothing_configured
  deployments_of false (some info) =
      if nat_eq (length info.deployments) 0
      then nothing_configured
      else table (info_rows info.deployments)

  abbrev pub has_metadata : Option (ProviderInfo Money) → Bool
  has_metadata none = false
  has_metadata (some info) = any (λ d. is_given d.max_input_tokens) info.deployments

  abbrev card_values : Bool → List StatCard → List (String × Option String)
  card_values loading [] = []
  card_values loading (s ∷ rest) =
      (s.label, if loading then none else some s.value) ∷ card_values loading rest

  abbrev pub title_of : Option String → String
  title_of none = "Provider Info"
  title_of (some name) = name <> " — Info"

  unfoldable pub view : Drawer Money → View
  unfolding stat_cards
  view d = record {
    title = title_of (elim d.provider [ none ↦ none | some p ↦ some p.name ]);
    alert = if truthy d.error_text then some d.error_text else none;
    cards = card_values d.loading (stat_cards d.info);
    deployments = deployments_of d.loading d.info;
    has_note = has_metadata d.info;
  }
