-- ===== src/Dashboard/Laws.antt =====
-- The history of the dashboard.
use clever_gate.Runs
use clever_gate.Prelude.{
  ◌≤◌, ◌≡◌, refl, sym, ap, ◌∙◌, subst, Bool, true, false, none, some, List, [], ◌∷◌, ◌++◌,
  take_last, length, length-take_last, take_last-append, arith,
}
use mathlib.Core.List.{append_assoc, append-nil}
use clever_gate.Dashboard.{
  MetricPoint, Page, Event, metrics_settled, health_settled, unmounted, point_of, take_metrics,
  take_health, step, run, initial,
}

module _ {Money : Type 0} (hundredth whole : Money → Money) where
  -- The points of the metrics that settle while the page is there.
  unfoldable pub points : Bool → List (Event Money) → List (MetricPoint Money)
  points false es = []
  points true [] = []
  points true (metrics_settled none ∷ es) = points true es
  points true (metrics_settled (some (t, m)) ∷ es) = point_of hundredth whole t m ∷ points true es
  points true (health_settled r ∷ es) = points true es
  points true (unmounted ∷ es) = []

  run_gone :
      (p : Page Money) (es : List (Event Money))
      → p.mounted ≡ false
      → (run hundredth whole p es).history ≡ p.history
  unfolding Runs.run step
  run_gone p [] h = refl
  run_gone p (metrics_settled none ∷ es) h = run_gone p es h
  run_gone p (metrics_settled (some (t, m)) ∷ es) h =
      let same : take_metrics hundredth whole (some (t, m)) p ≡ p = ground arith in
      ap (λ q. (run hundredth whole q es).history) same ∙ run_gone p es h
  run_gone p (health_settled none ∷ es) h = run_gone p es h
  run_gone p (health_settled (some hs) ∷ es) h =
      let same : take_health hundredth whole (some hs) p ≡ p = ground arith in
      ap (λ q. (run hundredth whole q es).history) same ∙ run_gone p es h
  run_gone p (unmounted ∷ es) h = run_gone (record p { mounted = false }) es refl

  run-history_from :
      (p : Page Money) (total : List (MetricPoint Money)) (es : List (Event Money))
      → p.mounted ≡ true
      → p.history ≡ take_last 30 total
      → (run hundredth whole p es).history ≡ take_last 30 (total ++ points true es)
  unfolding Runs.run step points
  run-history_from p total [] h k = k ∙ ap (take_last 30) (sym (append-nil total))
  run-history_from p total (metrics_settled none ∷ es) h k = run-history_from p total es h k
  run-history_from p total (metrics_settled (some (t, m)) ∷ es) h k =
      let new = point_of hundredth whole t m ∷ [] in
      let kept = ap (λ l. take_last 30 (l ++ new)) k ∙ take_last-append 30 total new in
      let shown : Page Money = record p {
        metrics = some m;
        loading = false;
        history = take_last 30 (p.history ++ new);
      } in
      let taken : take_metrics hundredth whole (some (t, m)) p ≡ shown = ground arith in
      ap (λ q. (run hundredth whole q es).history) taken
      ∙ run-history_from shown (total ++ new) es h kept
      ∙ ap (take_last 30) (append_assoc total new (points true es))
  run-history_from p total (health_settled none ∷ es) h k = run-history_from p total es h k
  run-history_from p total (health_settled (some hs) ∷ es) h k =
      let shown : Page Money = record p { health = hs } in
      let taken : take_health hundredth whole (some hs) p ≡ shown = ground arith in
      ap (λ q. (run hundredth whole q es).history) taken ∙ run-history_from shown total es h k
  run-history_from p total (unmounted ∷ es) h k =
      run_gone (record p { mounted = false }) es refl
      ∙ k
      ∙ ap (take_last 30) (sym (append-nil total))

  -- The history holds the last 30 points of the metrics that settled before the page went away, in
  -- their order, and never more than 30.
  pub run-history :
      (es : List (Event Money))
      → ((run hundredth whole (initial Money) es).history ≡ take_last 30 (points true es))
        × (length (run hundredth whole (initial Money) es).history ≤ 30)
  unfolding initial
  run-history es =
      let e = run-history_from (initial Money) [] es refl refl in
      (e, subst (λ l. length l ≤ 30) (sym e) (length-take_last 30 (points true es)))
