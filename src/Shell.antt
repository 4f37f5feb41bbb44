-- ===== src/Shell.antt =====
-- frontend/app/(dashboard)/layout.tsx, frontend/components/layout/Sidebar.tsx and Topbar.tsx, and
-- the submit of frontend/app/(auth)/login/page.tsx: who gets to see the panel, and where in it a
-- path is. `upper` is `toUpperCase`.
pub mod Laws
pub mod Frame
pub mod Login
pub mod Visit
use text.Mathlib.Text.{◌==◌}
use clever_gate.Prelude.{
  String, Bool, true, false, not, ◌||◌, ◌&&◌, Option, none, some, List, [], ◌∷◌, lookup,
  starts_with, strip_prefix, take_chars, truthy, or_null, if◌then◌else◌,
}
use clever_gate.Json.{Json, Access, value, undefined, get, str}
use clever_gate.Api.{Env, Net, Result, ok, err, message}
use clever_gate.Auth.{Session, has_user, login, logout}

abbrev pub title_map : List (String × String)
title_map =
    ("/", "Dashboard")
    ∷ ("/providers", "Providers Management")
    ∷ ("/models", "Models & Routing")
    ∷ ("/users", "Users & Teams")
    ∷ ("/keys", "Virtual Keys")
    ∷ ("/spend", "Spend & Cost")
    ∷ ("/monitoring", "Monitoring / Audit")
    ∷ ("/logs", "System Logs")
    ∷ ("/cache", "Cache Management")
    ∷ ("/settings", "Settings")
    ∷ []

abbrev title_or : Option String → String
title_or none = "Clever Gateway"
title_or (some t) = t

-- What the layout draws: nothing, or the panel under a title.
pub data View : Type 0 where
  blank : View
  panel : (title : String) → View

unfoldable pub dashboard_layout : (user : Option Json) (loading : Bool) (pathname : String) → View
unfolding lookup
dashboard_layout user loading pathname =
    if loading || not (has_user user) then blank else panel (title_or (lookup pathname title_map))

-- The layout's effect: the address that replaces the current one.
unfoldable pub redirect : (user : Option Json) (loading : Bool) → Option String
redirect user loading = if not loading && not (has_user user) then some "/login" else none

pub record NavItem : Type 0 where
  pub href : String
  pub label : String
  pub color : String

pub record NavGroup : Type 0 where
  pub title : String
  pub items : List NavItem

item : String → String → String → NavItem
item href label color = record { href = href; label = label; color = color }

group : String → List NavItem → NavGroup
group title items = record { title = title; items = items }

unfoldable pub grouped_nav : List NavGroup
unfolding item group
grouped_nav =
    group "Gateway" (
      item "/" "Dashboard" "#3f72af"
      ∷ item "/providers" "Providers" "#428475"
      ∷ item "/models" "Models & Routing" "#ea580c"
      ∷ item "/keys" "Virtual Keys" "#d97706"
      ∷ [])
    ∷ group "Monitoring"
        (item "/monitoring" "Monitoring" "#0891b2" ∷ item "/logs" "System Logs" "#2563eb" ∷ [])
    ∷ group "Management" (
        item "/spend" "Spend & Cost" "#16a34a"
        ∷ item "/cache" "Cache" "#7c3aed"
        ∷ item "/users" "Users & Teams" "#db2777"
        ∷ [])
    ∷ group "System" (item "/settings" "Settings" "#6b7280" ∷ [])
    ∷ []

-- Whether an entry of the sidebar is lit.
unfoldable pub is_active : (pathname href : String) → Bool
unfolding strip_prefix
is_active pathname href = if href == "/" then pathname == "/" else starts_with pathname href

-- `handleLogout`, with the address that the router pushes.
unfoldable pub handle_logout : Env → Net → Session → Session × String
handle_logout env net s = (logout env net s, "/login")

pub record Crumb : Type 0 where
  pub category : String
  pub page : String

crumb : String → String → Crumb
crumb category page = record { category = category; page = page }

unfoldable pub breadcrumb_map : List (String × Crumb)
unfolding crumb
breadcrumb_map =
    ("/", crumb "Dashboards" "Default")
    ∷ ("/providers", crumb "Gateway" "Providers")
    ∷ ("/models", crumb "Gateway" "Models & Routing")
    ∷ ("/keys", crumb "Gateway" "Virtual Keys")
    ∷ ("/monitoring", crumb "Monitoring" "Metrics")
    ∷ ("/logs", crumb "Monitoring" "System Logs")
    ∷ ("/spend", crumb "Management" "Spend & Cost")
    ∷ ("/cache", crumb "Management" "Cache")
    ∷ ("/users", crumb "Management" "Users & Teams")
    ∷ ("/settings", crumb "System" "Settings")
    ∷ []

abbrev page_title : Option String → String
page_title none = "Dashboard"
page_title (some t) = t

abbrev crumb_or : Option String → Option Crumb → Crumb
crumb_or title none = crumb "Clever Gateway" (page_title title)
crumb_or title (some c) = c

unfoldable pub trail : (title : Option String) → (pathname : String) → Crumb
unfolding lookup crumb breadcrumb_map
trail title pathname = crumb_or title (lookup pathname breadcrumb_map)

-- The login page: its fields, and what a submit leaves.
pub record LoginPage : Type 0 where
  pub username : String
  pub password : String
  pub totp : String
  pub error : String
  pub loading : Bool

abbrev pub login_settled : Result (Unit {0}) → LoginPage → LoginPage × Option String
login_settled (ok u) p = (record p { error = ""; loading = false }, some "/")
login_settled (err e) p = (record p { error = message e; loading = false }, none)

unfoldable pub handle_submit :
    Env → Net → LoginPage → Session → (LoginPage × Option String) × Session
handle_submit env net p s =
    let (r, t) = login env net p.username p.password (or_null p.totp) s in (login_settled r p, t)
