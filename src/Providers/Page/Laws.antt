-- ===== src/Providers/Page/Laws.antt =====
-- Duplicating on the page, and what the page says of a load that failed.
use clever_gate.Prelude.{true, none, some, ◌≡◌, refl, map, truthy, arith}
use clever_gate.Types.{Provider, Deployment}
use clever_gate.Api.{err, Failure, message}
use clever_gate.Providers.Clone.{clone_name}
use clever_gate.Providers.Clone.Names.{IsNew, clone_name-IsNew}
use clever_gate.Providers.Page.{
  deployments, nothing, Page, tab_chosen, deployments_settled, duplicate_provider,
  duplicate_deployment, load_ended, step, choose_tab, handle_clone_provider,
  handle_clone_deployment, provider_panel, deployment_panel,
}

-- What duplicating leaves: a new item in the open drawer, not an edited one, whose name no loaded
-- item has, and which else is the original.
duplicate_opens :
    (p : Page) (s : Provider) (d : Deployment)
    → let q = step p (duplicate_provider s) in
      let r = step p (duplicate_deployment d) in
      let name = clone_name (map (λ x. x.name) p.provider_rows) s.name in
      let model = clone_name (map (λ x. x.model_name) p.deployment_rows) d.model_name in
      ((q.template ≡ some (record s { name = name }))
        × (q.editing ≡ nothing)
        × (q.drawer_open ≡ true)
        × IsNew name (map (λ x. x.name) q.provider_rows))
      × ((r.deployment_template ≡ some (record d { model_name = model }))
          × (r.editing ≡ nothing)
          × (r.drawer_open ≡ true)
          × IsNew model (map (λ x. x.model_name) r.deployment_rows))
unfolding step handle_clone_provider handle_clone_deployment
duplicate_opens p s d = (
  (refl, refl, refl, clone_name-IsNew (map (λ x. x.name) p.provider_rows) s.name),
  (refl, refl, refl, clone_name-IsNew (map (λ x. x.model_name) p.deployment_rows) d.model_name),
)

-- A load of the deployments that fails with a message is not told on its own tab: when the
-- loading ends, the panel shows no message and the rows that were there before; only the
-- providers' panel would show it.
deployments_failure_hidden :
    (p : Page) (e : Failure)
    → truthy (message e) ≡ true
    → let q =
        step (step (step p (tab_chosen deployments)) (deployments_settled (err e))) load_ended in
      ((deployment_panel q).alert ≡ none)
      × ((deployment_panel q).rows ≡ some p.deployment_rows)
      × ((provider_panel q).alert ≡ some (message e))
unfolding step choose_tab deployment_panel provider_panel
deployments_failure_hidden p e h = (refl, refl, ground arith)
