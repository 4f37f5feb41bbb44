-- ===== src/Models.antt =====
-- frontend/app/(dashboard)/models/page.tsx: the aliases, each with its deployments. The `Map` is an
-- association list in the order in which its keys were first set.
pub mod Laws
use clever_gate.Prelude.{
  ℕ, String, Bool, Option, none, some, List, [], ◌∷◌, ◌++◌, lookup, insert, length, nat_eq,
  if◌then◌else◌, true, false, ◌<>◌,
}
use clever_gate.Show.{show_nat}
use clever_gate.Types.{Deployment}
use clever_gate.Api.{Result, ok, err}

pub record Page : Type 0 where
  pub deployments : List Deployment
  pub loading : Bool

-- `load`: the failure is ignored.
unfoldable pub load : Result (List Deployment) → Page → Page
load (ok items) p = record { deployments = items; loading = false }
load (err e) p = record p { loading = false }

abbrev pub list_or_new : Option (List Deployment) → List Deployment
list_or_new none = []
list_or_new (some ds) = ds

-- One round of the loop.
abbrev pub add_deployment :
    Deployment → List (String × List Deployment) → List (String × List Deployment)
add_deployment d aliases =
    insert d.model_name (list_or_new (lookup d.model_name aliases) ++ d ∷ []) aliases

unfoldable pub group_into :
    List (String × List Deployment) → List Deployment → List (String × List Deployment)
group_into aliases [] = aliases
group_into aliases (d ∷ ds) = group_into (add_deployment d aliases) ds

unfoldable pub aliases_of : List Deployment → List (String × List Deployment)
unfolding group_into
aliases_of ds = group_into [] ds

-- The badges of one deployment: `n && <Badge>` shows the digit 0 without a badge for 0.
pub data Mark : Type 0 where
  badge plain : String → Mark

abbrev limit : String → Option ℕ → List Mark
limit unit none = []
limit unit (some n) = if nat_eq n 0 then plain "0" ∷ [] else badge (show_nat n <> unit) ∷ []

unfoldable pub marks : Deployment → List Mark
marks d =
    badge (if d.is_enabled then "enabled" else "disabled") ∷ limit " TPM" d.tpm
    ++ limit " RPM" d.rpm
    ++ limit " ctx" d.context_window

-- One card: the alias, the text of its badge and the deployments' models with their marks.
pub record AliasCard : Type 0 where
  pub alias : String
  pub count : String
  pub rows : List (String × List Mark)

abbrev rows_of : List Deployment → List (String × List Mark)
rows_of [] = []
rows_of (d ∷ ds) = (d.litellm_model, marks d) ∷ rows_of ds

unfoldable pub cards : List (String × List Deployment) → List AliasCard
unfolding marks
cards [] = []
cards ((alias, deps) ∷ rest) =
    record {
      alias = alias;
      count = show_nat (length deps) <> " deployment(s)";
      rows = rows_of deps;
    }
    ∷ cards rest
