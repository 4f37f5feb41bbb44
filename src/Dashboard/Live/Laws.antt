-- ===== src/Dashboard/Live/Laws.antt =====
-- A dashboard that has gone away stays as it was.
use clever_gate.Runs
use clever_gate.Runs.{run-keeps, run-leaves}
use clever_gate.Prelude.{
  ℕ, ◌+◌, ◌≤◌, ◌≡◌, refl, ◌∙◌, sym, ap, String, false, Option, none, some, List, [], nat_eq, arith,
  Bool-cases, inl, inr,
}
use clever_gate.Types.{DashboardMetrics, ProviderHealthItem}
use clever_gate.Streams.Polling.{fires, settles, stop}
use clever_gate.Streams.Polling.Laws.{
  IsSingle, IsIdle, step-IsSingle, step-IsIdle, stop-IsIdle, stop-fetches, create-run-IsSingle,
}
use clever_gate.Dashboard.{Page, take_metrics, take_health}
use clever_gate.Dashboard.Live.{
  Dashboard, Event, First, metrics_pending, health_pending, settled, first_metrics, first_health,
  metrics_timer, metrics_ends, health_timer, health_ends, unmount, first_metrics_ends,
  first_health_ends, step, run, mounted, fetches_made,
}

module _ {Money : Type 0} (hundredth whole : Money → Money) where
  -- Both clients keep what `stop` relies on.
  abbrev AreSingle : Dashboard Money → Type 0
  AreSingle c = IsSingle c.metrics_client × IsSingle c.health_client

  first_metrics-AreSingle :
      (f : First) (r : Option (String × DashboardMetrics Money)) (c : Dashboard Money)
      → AreSingle c
      → AreSingle (first_metrics_ends hundredth whole f r c)
  first_metrics-AreSingle metrics_pending r c h = h
  first_metrics-AreSingle health_pending r c h = h
  first_metrics-AreSingle settled r c h = h

  first_health-AreSingle :
      (f : First) (r : Option (List ProviderHealthItem)) (c : Dashboard Money)
      → AreSingle c
      → AreSingle (first_health_ends hundredth whole f r c)
  first_health-AreSingle metrics_pending r c h = h
  first_health-AreSingle health_pending r c h = h
  first_health-AreSingle settled r c h = h

  step-AreSingle :
      (c : Dashboard Money) (e : Event Money) → AreSingle c → AreSingle (step hundredth whole c e)
  unfolding step
  step-AreSingle c (first_metrics r) h = first_metrics-AreSingle c.first r c h
  step-AreSingle c (first_health r) h = first_health-AreSingle c.first r c h
  step-AreSingle c (metrics_timer id) (m, h) = (step-IsSingle c.metrics_client (fires id) m, h)
  step-AreSingle c (metrics_ends r) (m, h) =
      elim (Bool-cases (nat_eq c.metrics_client.in_flight 0)) [
        | inl absent ↦ rw absent (m, h)
        | inr under_way ↦
            rw under_way (step-IsSingle c.metrics_client (settles (some tt) false) m, h)
      ]
  step-AreSingle c (health_timer id) (m, h) = (m, step-IsSingle c.health_client (fires id) h)
  step-AreSingle c (health_ends r) (m, h) = elim (Bool-cases (nat_eq c.health_client.in_flight 0)) [
    | inl absent ↦ rw absent (m, h)
    | inr under_way ↦ rw under_way (m, step-IsSingle c.health_client (settles (some tt) false) h)
  ]
  step-AreSingle c unmount (m, h) =
      (step-IsSingle c.metrics_client stop m, step-IsSingle c.health_client stop h)

  run-AreSingle :
      (c : Dashboard Money) (es : List (Event Money))
      → AreSingle c
      → AreSingle (run hundredth whole c es)
  run-AreSingle = run-keeps (step hundredth whole) AreSingle step-AreSingle

  mounted-AreSingle : AreSingle (mounted Money)
  unfolding mounted Runs.run
  mounted-AreSingle = (create-run-IsSingle [], create-run-IsSingle [])

  -- The first fetches may still ask for the health.
  abbrev to_come : First → ℕ
  to_come metrics_pending = 1
  to_come health_pending = 0
  to_come settled = 0

  -- The page is gone, and both clients are stopped.
  abbrev IsGone : Dashboard Money → Type 0
  IsGone c = (c.page.mounted ≡ false) × IsIdle c.metrics_client × IsIdle c.health_client

  take_metrics_gone :
      (r : Option (String × DashboardMetrics Money)) (p : Page Money)
      → p.mounted ≡ false
      → take_metrics hundredth whole r p ≡ p
  take_metrics_gone none p h = refl
  take_metrics_gone (some (t, m)) p h = ground arith

  take_health_gone :
      (r : Option (List ProviderHealthItem)) (p : Page Money)
      → p.mounted ≡ false
      → take_health hundredth whole r p ≡ p
  take_health_gone none p h = refl
  take_health_gone (some hs) p h = ground arith

  -- The page stays, and what is still to be fetched does not grow.
  abbrev Rests : Dashboard Money → Dashboard Money → Type 0
  Rests c d =
      (d.page ≡ c.page) × (fetches_made d + to_come d.first ≤ fetches_made c + to_come c.first)

  -- What a step leaves of a page that is gone.
  abbrev Kept : Dashboard Money → Dashboard Money → Type 0
  Kept c d = IsGone d × Rests c d

  first_metrics_gone :
      (f : First) (r : Option (String × DashboardMetrics Money)) (c : Dashboard Money)
      → c.first ≡ f
      → IsGone c
      → Kept c (first_metrics_ends hundredth whole f r c)
  first_metrics_gone metrics_pending r c e (u, m, h) =
      let same = take_metrics_gone r c.page u in
      let one_more = ap to_come e in ((ap (λ q. q.mounted) same ∙ u, m, h), (same, omega arith))
  first_metrics_gone health_pending r c e g = (g, (refl, omega arith))
  first_metrics_gone settled r c e g = (g, (refl, omega arith))

  first_health_gone :
      (f : First) (r : Option (List ProviderHealthItem)) (c : Dashboard Money)
      → c.first ≡ f
      → IsGone c
      → Kept c (first_health_ends hundredth whole f r c)
  first_health_gone metrics_pending r c e g = (g, (refl, omega arith))
  first_health_gone health_pending r c e (u, m, h) =
      let same = take_health_gone r c.page u in
      ((ap (λ q. q.mounted) same ∙ u, m, h), (same, omega arith))
  first_health_gone settled r c e g = (g, (refl, omega arith))

  left_out : (p : Page Money) → p.mounted ≡ false → record p { mounted = false } ≡ p
  left_out p u = sym (ap (λ b. record p { mounted = b }) u)

  step_gone : (c : Dashboard Money) (e : Event Money) → IsGone c → Kept c (step hundredth whole c e)
  unfolding step
  step_gone c (first_metrics r) g = first_metrics_gone c.first r c refl g
  step_gone c (first_health r) g = first_health_gone c.first r c refl g
  step_gone c (metrics_timer id) (u, m, h) =
      let (idle, (f, d)) = step-IsIdle c.metrics_client (fires id) m in
      ((u, idle, h), (refl, omega arith))
  step_gone c (metrics_ends r) (u, m, h) =
      let (idle, (f, d)) = step-IsIdle c.metrics_client (settles (some tt) false) m in
      let same = take_metrics_gone r c.page u in
      elim (Bool-cases (nat_eq c.metrics_client.in_flight 0)) [
        | inl absent ↦ rw absent ((u, m, h), (refl, omega arith))
        | inr under_way ↦
            rw under_way ((ap (λ q. q.mounted) same ∙ u, idle, h), (same, omega arith))
      ]
  step_gone c (health_timer id) (u, m, h) =
      let (idle, (f, d)) = step-IsIdle c.health_client (fires id) h in
      ((u, m, idle), (refl, omega arith))
  step_gone c (health_ends r) (u, m, h) =
      let (idle, (f, d)) = step-IsIdle c.health_client (settles (some tt) false) h in
      let same = take_health_gone r c.page u in
      elim (Bool-cases (nat_eq c.health_client.in_flight 0)) [
        | inl absent ↦ rw absent ((u, m, h), (refl, omega arith))
        | inr under_way ↦
            rw under_way ((ap (λ q. q.mounted) same ∙ u, m, idle), (same, omega arith))
      ]
  step_gone c unmount (u, m, h) =
      let (m', (f, d)) = step-IsIdle c.metrics_client stop m in
      let (h', (f', d')) = step-IsIdle c.health_client stop h in
      ((refl, m', h'), (left_out c.page u, omega arith))

  run_gone :
      (c : Dashboard Money) (es : List (Event Money)) → IsGone c → Kept c (run hundredth whole c es)
  run_gone =
      run-leaves (step hundredth whole) IsGone Rests (λ c. (refl, omega arith))
        (λ c d e (same, fewer) (same', fewer'). (same' ∙ same, omega arith)) step_gone

  unmount-IsGone :
      (c : Dashboard Money)
      → AreSingle c
      → let d = step hundredth whole c unmount in
        IsGone d × (fetches_made d + to_come d.first ≤ fetches_made c + to_come c.first)
  unfolding step
  unmount-IsGone c (m, h) =
      let fewer = stop-fetches c.metrics_client in
      let fewer' = stop-fetches c.health_client in
      ((refl, stop-IsIdle c.metrics_client m, stop-IsIdle c.health_client h), omega arith)

  to_come_bound : (f : First) → to_come f ≤ 1
  to_come_bound metrics_pending = omega arith
  to_come_bound health_pending = omega arith
  to_come_bound settled = omega arith

  -- Once the dashboard has gone away, whatever answers or fires then leaves its page as it was, and
  -- at most one more call of `api.get` is made for it: that for the health, when the first metrics were
  -- under way.
  pub run_after_unmount :
      (before after : List (Event Money))
      → let c = run hundredth whole (mounted Money) before in
        let d = step hundredth whole c unmount in
        let e = run hundredth whole d after in
        (e.page ≡ d.page) × (fetches_made e ≤ fetches_made c + 1)
  run_after_unmount before after =
      let c = run hundredth whole (mounted Money) before in
      let (gone, fewer) =
        unmount-IsGone c (run-AreSingle (mounted Money) before mounted-AreSingle) in
      let (g, (same, fewer')) = run_gone (step hundredth whole c unmount) after gone in
      let late = to_come_bound c.first in (same, omega arith)
