-- ===== src/Providers/Page/Duplicates.antt =====
-- A duplicate from the button of its original's row to the request that creates it.
use clever_gate.Prelude.{String, Option, none, ◌≡◌, refl, map, true, false}
use clever_gate.Json.{Json}
use clever_gate.Types.{Provider}
use clever_gate.Api.{Result}
use clever_gate.Providers.Clone.{clone_name}
use clever_gate.Providers.Clone.Names.{IsNew, clone_name-IsNew}
use clever_gate.Providers.Page.{
  Page, editing_provider, duplicate_provider, step, handle_clone_provider,
}
use clever_gate.Providers.Forms.{Call, post, open_provider, save_provider, submit}
use clever_gate.Providers.Forms.Laws.{ReadsBack, new_body, save_provider_unchanged}
use clever_gate.Providers.Drawers.{provider_drawer}

-- The button of a duplicate opens the drawer. Saved with what the page then passes to it, as it
-- opened, the duplicate is sent once, in a request that
-- creates the original's copy under a name that no loaded provider has, and the drawer is that of a
-- duplicate. The text of the configuration is to be read back by `JSON.parse`.
pub duplicate_created :
    (stringify : Json → String) (parse : String → Option Json) (send : Call → Result (Option Json))
    (p : Page) (s : Provider)
    → ReadsBack stringify parse s.config
    → let q = step p (duplicate_provider s) in
      let names = map (λ x. x.name) p.provider_rows in
      let copy : Provider = record s { name = clone_name names s.name } in
      let editing = editing_provider q.editing in
      (q.drawer_open ≡ true)
      × (save_provider parse send editing q.template (open_provider stringify editing q.template)
          ≡ submit send
              (post "/api/admin/providers" (new_body stringify parse copy))
              "Provider duplicated")
      × ((provider_drawer editing q.template false).title ≡ "Duplicate Provider")
      × IsNew copy.name names
unfolding step handle_clone_provider provider_drawer
duplicate_created stringify parse send p s reads =
    let names = map (λ x. x.name) p.provider_rows in
    let copy : Provider = record s { name = clone_name names s.name } in
    (
      refl,
      (save_provider_unchanged stringify parse send copy none reads).0,
      refl,
      clone_name-IsNew names s.name,
    )
