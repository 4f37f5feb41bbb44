-- ===== src/Providers/Page.antt =====
-- frontend/app/(dashboard)/providers/page.tsx: the page around the drawers, its loads, and what it
-- shows. A load that was started settles at any later time, which is an event.
pub mod Laws
pub mod Duplicates
use clever_gate.Prelude.{
  String, Bool, true, false, not, ◌&&◌, Option, none, some, List, [], ◌∷◌, ◌++◌, ◌≡◌, refl, map,
  truthy, ◌<>◌, if◌then◌else◌,
}
use clever_gate.Types.{Provider, Deployment, ProviderKey}
use clever_gate.Api.{Result, ok, err, message}
use clever_gate.Providers.Clone.{clone_name}
use clever_gate.Providers.Forms.{is_clone, Notice, success, error}

pub data Tab : Type 0 where
  providers deployments keys : Tab

abbrev pub same_tab : Tab → Tab → Bool
same_tab providers providers = true
same_tab deployments deployments = true
same_tab keys keys = true
same_tab _ _ = false

-- `Provider | Deployment | null`
pub data Editing : Type 0 where
  nothing : Editing
  provider : Provider → Editing
  deployment : Deployment → Editing

pub record Page : Type 0 where
  pub tab : Tab
  pub provider_rows : List Provider
  pub deployment_rows : List Deployment
  pub key_rows : List ProviderKey
  pub loading : Bool
  pub error_text : String
  pub drawer_open : Bool
  pub editing : Editing
  pub info_target : Option Provider
  pub template : Option Provider
  pub deployment_template : Option Deployment

-- `editing as Provider | null`. Rows of deployments are on another tab, whose drawer is another one:
-- where a deployment is edited, the drawer of a provider is closed.
abbrev pub editing_provider : Editing → Option Provider
editing_provider nothing = none
editing_provider (provider s) = some s
editing_provider (deployment d) = none

-- A load of one list settles with the server's items, or fails.
abbrev pub providers_loaded : Result (List Provider) → Page → Page
providers_loaded (ok items) p = record p { provider_rows = items }
providers_loaded (err e) p = record p { error_text = message e }

abbrev pub deployments_loaded : Result (List Deployment) → Page → Page
deployments_loaded (ok items) p = record p { deployment_rows = items }
deployments_loaded (err e) p = record p { error_text = message e }

-- The failure of this load is ignored.
abbrev pub keys_loaded : Result (List ProviderKey) → Page → Page
keys_loaded (ok items) p = record p { key_rows = items }
keys_loaded (err e) p = p

-- The effect of a change of tab, up to its first `await`.
unfoldable pub choose_tab : Tab → Page → Page
choose_tab t p = record p { tab = t; loading = true; error_text = "" }

unfoldable pub handle_clone_provider : Provider → Page → Page
handle_clone_provider s p = record p {
  template = some (record s { name = clone_name (map (λ x. x.name) p.provider_rows) s.name });
  editing = nothing;
  drawer_open = true;
}

unfoldable pub handle_clone_deployment : Deployment → Page → Page
handle_clone_deployment s p = record p {
  deployment_template = some (record s {
    model_name = clone_name (map (λ x. x.model_name) p.deployment_rows) s.model_name;
  });
  editing = nothing;
  drawer_open = true;
}

pub data Event : Type 0 where
  tab_chosen : Tab → Event
  providers_settled : Result (List Provider) → Event
  deployments_settled : Result (List Deployment) → Event
  keys_settled : Result (List ProviderKey) → Event
  load_ended : Event
  add_clicked : Event
  edit_provider : Provider → Event
  edit_deployment : Deployment → Event
  duplicate_provider : Provider → Event
  duplicate_deployment : Deployment → Event
  info_opened : Provider → Event
  info_closed : Event
  drawer_closed : Event

-- The close handlers of the drawers, by the tab whose drawer is open; `onSaved` begins the same.
unfoldable pub close_drawer : Tab → Page → Page
close_drawer providers p = record p { drawer_open = false; template = none }
close_drawer deployments p = record p { drawer_open = false; deployment_template = none }
close_drawer keys p = record p { drawer_open = false }

unfoldable pub step : Page → Event → Page
unfolding close_drawer
step p (tab_chosen t) = choose_tab t p
step p (providers_settled r) = providers_loaded r p
step p (deployments_settled r) = deployments_loaded r p
step p (keys_settled r) = keys_loaded r p
step p load_ended = record p { loading = false }
step p add_clicked = record p { editing = nothing; drawer_open = true }
step p (edit_provider s) = record p { editing = provider s; drawer_open = true }
step p (edit_deployment s) = record p { editing = deployment s; drawer_open = true }
step p (duplicate_provider s) = handle_clone_provider s p
step p (duplicate_deployment s) = handle_clone_deployment s p
step p (info_opened s) = record p { info_target = some s }
step p info_closed = record p { info_target = none }
step p drawer_closed = close_drawer p.tab p

-- The loads that a tab starts: its own list, and the providers for the drawer's selector.
pub data Load : Type 0 where
  load_providers load_deployments load_keys : Load

unfoldable pub loads_of : Tab → List Load
loads_of providers = load_providers ∷ []
loads_of deployments = load_deployments ∷ load_providers ∷ []
loads_of keys = load_keys ∷ load_providers ∷ []

abbrev pub path_of : Load → String
path_of load_providers = "/api/admin/providers?page=1&page_size=200"
path_of load_deployments = "/api/admin/deployments?page=1&page_size=200"
path_of load_keys = "/api/admin/provider-keys?page=1&page_size=200"

-- What a panel shows: an error message or none, and a spinner or the rows.
pub record Panel {ℓ} (A : Type ℓ) : Type ℓ where
  pub alert : Option String
  pub rows : Option (List A)

abbrev pub or_rows {ℓ} : {A : Type ℓ} → Bool → List A → Option (List A)
or_rows loading rows = if loading then none else some rows

unfoldable pub provider_panel : Page → Panel Provider
provider_panel p = record {
  alert = if truthy p.error_text then some p.error_text else none;
  rows = or_rows p.loading p.provider_rows;
}

-- The other two panels have no place for the error.
unfoldable pub deployment_panel : Page → Panel Deployment
deployment_panel p = record { alert = none; rows = or_rows p.loading p.deployment_rows }

unfoldable pub key_panel : Page → Panel ProviderKey
key_panel p = record { alert = none; rows = or_rows p.loading p.key_rows }

-- Which drawer is open.
abbrev pub is_drawer_open : Tab → Page → Bool
is_drawer_open t p = p.drawer_open && same_tab p.tab t

-- `handleDelete` once the user has confirmed: the request, the notice, and the list to load again.
pub record Deleted : Type 0 where
  pub path : String
  pub notice : Notice
  pub reload : Option Load

abbrev pub delete_path : Tab → String → String
delete_path providers id = "/api/admin/providers/" <> id
delete_path deployments id = "/api/admin/deployments/" <> id
delete_path keys id = "/api/admin/provider-keys/" <> id

abbrev pub own_load : Tab → Load
own_load providers = load_providers
own_load deployments = load_deployments
own_load keys = load_keys

unfoldable pub handle_delete : (String → Result (Unit {0})) → Tab → String → Deleted
handle_delete delete type id = elim (delete (delete_path type id)) [
  | ok u ↦ record {
    path = delete_path type id;
    notice = success "Deleted";
    reload = some (own_load type);
  }
  | err e ↦ record { path = delete_path type id; notice = error (message e); reload = none }
]

-- `handleTest` with the outcome of the request.
unfoldable pub handle_test : Result Bool → Notice
handle_test (ok true) = success "Provider healthy"
handle_test (ok false) = error "Health check failed"
handle_test (err e) = error (message e)
