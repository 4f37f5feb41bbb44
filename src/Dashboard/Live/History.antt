-- ===== src/Dashboard/Live/History.antt =====
-- What the page of the dashboard hears from its first fetches and its polling clients.
use clever_gate.Runs
use clever_gate.Runs.{run-matches}
use clever_gate.Prelude.{
  ◌≤◌, ◌≡◌, refl, sym, ap, ◌∙◌, subst, String, true, Option, List, [], ◌∷◌, nat_eq, if◌then◌else◌,
  take_last, length, Bool-cases, inl, inr,
}
use clever_gate.Types.{DashboardMetrics, ProviderHealthItem}
use clever_gate.Dashboard
use clever_gate.Dashboard.{Page, take_metrics, take_health, initial}
use clever_gate.Dashboard.Laws.{points, run-history}
use clever_gate.Dashboard.Live.{
  Dashboard, Event, First, metrics_pending, health_pending, settled, first_metrics, first_health,
  metrics_timer, metrics_ends, health_timer, health_ends, unmount, first_metrics_ends,
  first_health_ends, step, run, mounted,
}

module _ {Money : Type 0} (hundredth whole : Money → Money) where
  abbrev metrics_heard :
      First → Option (String × DashboardMetrics Money) → List (Dashboard.Event Money)
  metrics_heard metrics_pending r = Dashboard.metrics_settled r ∷ []
  metrics_heard f r = []

  abbrev health_heard : First → Option (List ProviderHealthItem) → List (Dashboard.Event Money)
  health_heard health_pending r = Dashboard.health_settled r ∷ []
  health_heard f r = []

  -- The answers that the page takes: those to the first fetches in their turn, and those to a fetch
  -- that a client has under way.
  abbrev pub page_event : Dashboard Money → Event Money → List (Dashboard.Event Money)
  page_event c (first_metrics r) = metrics_heard c.first r
  page_event c (first_health r) = health_heard c.first r
  page_event c (metrics_timer id) = []
  page_event c (metrics_ends r) =
      if nat_eq c.metrics_client.in_flight 0 then [] else Dashboard.metrics_settled r ∷ []
  page_event c (health_timer id) = []
  page_event c (health_ends r) =
      if nat_eq c.health_client.in_flight 0 then [] else Dashboard.health_settled r ∷ []
  page_event c unmount = Dashboard.unmounted ∷ []

  abbrev pub page_events : Dashboard Money → List (Event Money) → List (Dashboard.Event Money)
  page_events = Runs.moves_of (step hundredth whole) (Dashboard.step hundredth whole) page_event

  first_metrics-page :
      (f : First) (r : Option (String × DashboardMetrics Money)) (c : Dashboard Money)
      → (first_metrics_ends hundredth whole f r c).page
        ≡ Dashboard.run hundredth whole c.page (metrics_heard f r)
  unfolding Runs.run Dashboard.step
  first_metrics-page metrics_pending r c = refl
  first_metrics-page health_pending r c = refl
  first_metrics-page settled r c = refl

  first_health-page :
      (f : First) (r : Option (List ProviderHealthItem)) (c : Dashboard Money)
      → (first_health_ends hundredth whole f r c).page
        ≡ Dashboard.run hundredth whole c.page (health_heard f r)
  unfolding Runs.run Dashboard.step
  first_health-page metrics_pending r c = refl
  first_health-page health_pending r c = refl
  first_health-page settled r c = refl

  step-page :
      (c : Dashboard Money) (e : Event Money)
      → (step hundredth whole c e).page ≡ Dashboard.run hundredth whole c.page (page_event c e)
  unfolding step Runs.run Dashboard.step
  step-page c (first_metrics r) = first_metrics-page c.first r c
  step-page c (first_health r) = first_health-page c.first r c
  step-page c (metrics_timer id) = refl
  step-page c (metrics_ends r) = elim (Bool-cases (nat_eq c.metrics_client.in_flight 0)) [
    | inl absent ↦ rw absent refl
    | inr under_way ↦ rw under_way refl
  ]
  step-page c (health_timer id) = refl
  step-page c (health_ends r) = elim (Bool-cases (nat_eq c.health_client.in_flight 0)) [
    | inl absent ↦ rw absent refl
    | inr under_way ↦ rw under_way refl
  ]
  step-page c unmount = refl

  run-page :
      (c : Dashboard Money) (es : List (Event Money))
      → (run hundredth whole c es).page ≡ Dashboard.run hundredth whole c.page (page_events c es)
  run-page c es =
      run-matches (step hundredth whole) (Dashboard.step hundredth whole) page_event
        (λ c p. c.page ≡ p)
        (λ c p e same.
          step-page c e ∙ ap (λ q. Dashboard.run hundredth whole q (page_event c e)) same)
        c c.page es refl

  -- Whatever the timers, the fetches and the browser do, the page of the dashboard is the one that
  -- the answers which its fetches waited for lead to; its history holds the last 30 points of the
  -- metrics among them that came before the page went away, in their order, and never more than 30.
  pub run-history_live :
      (es : List (Event Money))
      → let p = (run hundredth whole (mounted Money) es).page in
        let heard = page_events (mounted Money) es in
        (p ≡ Dashboard.run hundredth whole (initial Money) heard)
        × (p.history ≡ take_last 30 (points hundredth whole true heard))
        × (length p.history ≤ 30)
  unfolding mounted
  run-history_live es =
      let e = run-page (mounted Money) es in
      let (kept, small) = run-history hundredth whole (page_events (mounted Money) es) in
      (e, ap (λ p. p.history) e ∙ kept, subst (λ p. length p.history ≤ 30) (sym e) small)
