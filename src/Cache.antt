-- ===== src/Cache.antt =====
-- frontend/app/(dashboard)/cache/page.tsx: the load of the numbers, and the invalidation, which
-- asks first and loads again when it is done.
use clever_gate.Runs
use clever_gate.Prelude.{ℕ, suc, Bool, true, false, Option, none, some, List, [], ◌∷◌, ◌<>◌}
use clever_gate.Show.{show_nat}
use clever_gate.Types.{CacheStats}
use clever_gate.Api.{Result, ok, err, message}
use clever_gate.Widgets.{ConfirmOptions, Notification, toast, success, error}

-- `questions` are those given to `confirm`; `invalidations` and `loads` are the calls of `api` of
-- either kind.
pub record Page : Type 0 where
  pub stats : Option CacheStats
  pub loading : Bool
  pub questions : List ConfirmOptions
  pub toasts : List Notification
  pub invalidations : ℕ
  pub loads : ℕ

-- The page after the start of its first load.
unfoldable pub initial : Page
initial = record {
  stats = none;
  loading = true;
  questions = [];
  toasts = [];
  invalidations = 0;
  loads = 1;
}

unfoldable pub question : ConfirmOptions
question = record {
  title = "Invalidate all cache";
  message = "This will clear all cached responses.";
  confirm_label = some "Invalidate All";
  cancel_label = none;
  danger = some true;
}

pub data Event : Type 0 where
  load_settled : Result CacheStats → Event
  invalidate_clicked : Event
  -- `confirm` calls `onConfirm`.
  confirmed : Event
  invalidation_settled : Result ℕ → Event

-- `load` after its `await`: the failure is ignored.
abbrev pub loaded : Result CacheStats → Page → Page
loaded (ok s) p = record p { stats = some s; loading = false }
loaded (err e) p = record p { loading = false }

-- `onConfirm` after its `await`.
abbrev pub invalidated : Result ℕ → Page → Page
invalidated (ok n) p = record p {
  toasts = toast ("Invalidated " <> show_nat n <> " entries") (some success) ∷ p.toasts;
  loads = suc p.loads;
}
invalidated (err e) p = record p { toasts = toast (message e) (some error) ∷ p.toasts }

-- The page shows nothing to click on while its first load is under way.
abbrev pub click : Bool → Page → Page
click true p = p
click false p = record p { questions = question ∷ p.questions }

unfoldable pub step : Page → Event → Page
step p (load_settled r) = loaded r p
step p invalidate_clicked = click p.loading p
step p confirmed = record p { invalidations = suc p.invalidations }
step p (invalidation_settled r) = invalidated r p

abbrev pub run : Page → List Event → Page
run = Runs.run step

-- The cards: the number of entries and that of hits.
unfoldable pub cards : Page → ℕ × ℕ
cards p = elim p.stats [ none ↦ (0, 0) | some s ↦ (s.total_entries, s.total_hits) ]
