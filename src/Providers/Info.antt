-- ===== src/Providers/Info.antt =====
-- frontend/app/(dashboard)/providers/page.tsx, `ProviderInfoDrawer`: the provider whose drawer is
-- open, and its request. Requests are numbered in the order in which they are sent.
pub mod View
pub mod Laws
use clever_gate.Runs
use clever_gate.Prelude.{
  ℕ, String, Bool, true, false, Option, none, some, List, [], ◌∷◌, ◌<>◌, length, any, nat_eq,
  if◌then◌else◌,
}
use clever_gate.Types.{Provider, ProviderInfo}
use clever_gate.Api.{Result, ok, err, message}
use clever_gate.Streams.Polling.{remove}

-- `pending` are the requests without an answer, `paths` what was requested, the newest first.
pub record Drawer (Money : Type 0) : Type 0 where
  pub provider : Option Provider
  pub info : Option (ProviderInfo Money)
  pub loading : Bool
  pub error_text : String
  pub pending : List ℕ
  pub paths : List String

-- The page gives another provider or none, or an answer arrives.
pub data Event (Money : Type 0) : Type 0 where
  retarget : Option Provider → Event Money
  settled : ℕ → Result (ProviderInfo Money) → Event Money

abbrev pub info_path : Provider → String
info_path p = "/api/admin/providers/" <> p.id <> "/info"

module _ {Money : Type 0} where
  -- The effect of a change of `provider`.
  abbrev pub effect : Option Provider → Drawer Money → Drawer Money
  effect none d = record d { provider = none; info = none }
  effect (some p) d = record d {
    provider = some p;
    loading = true;
    error_text = "";
    pending = length d.paths ∷ d.pending;
    paths = info_path p ∷ d.paths;
  }

  -- `.then(setInfo).catch(…).finally(…)`, whichever request is answered.
  abbrev pub answered : Result (ProviderInfo Money) → Drawer Money → Drawer Money
  answered (ok i) d = record d { info = some i; loading = false }
  answered (err e) d = record d { error_text = message e; loading = false }

  unfoldable pub step : Drawer Money → Event Money → Drawer Money
  step d (retarget t) = effect t d
  step d (settled id r) =
      if any (λ j. nat_eq j id) d.pending
      then answered r (record d { pending = remove id d.pending })
      else d

  abbrev pub run : Drawer Money → List (Event Money) → Drawer Money
  run = Runs.run step

unfoldable pub initial : (Money : Type 0) → Drawer Money
initial Money = record {
  provider = none;
  info = none;
  loading = false;
  error_text = "";
  pending = [];
  paths = [];
}
