-- ===== src/Shell/Visit.antt =====
-- The panel as it is visited: frontend/lib/auth.tsx with its calls cut at their `await`s, with
-- frontend/app/(dashboard)/layout.tsx around each page under it, the submit of
-- frontend/app/(auth)/login/page.tsx, and the logout of frontend/components/layout/Sidebar.tsx.
pub mod Laws
pub mod Logout
use text.Mathlib.Text.{◌==◌}
use clever_gate.Runs
use clever_gate.Prelude.{
  ℕ, String, Bool, true, false, not, ◌&&◌, Option, none, some, List, lookup, is_some, nat_eq,
  if◌then◌else◌,
}
use clever_gate.Json.{Json, null}
use clever_gate.Api.{Env, Storage, Result, ok, err}
use clever_gate.Auth.{has_user}
use clever_gate.Auth.Interleaved
use clever_gate.Auth.Interleaved.{
  Provider, opening_answered, login_called, login_answered, me_answered, logout_called,
  logout_answered, refreshed,
}
use clever_gate.Shell.{View, title_map, dashboard_layout, redirect}

pub record Visit : Type 0 where
  pub provider : Provider
  pub path : String

abbrev pub is_login : String → Bool
is_login path = path == "/login"

-- The pages under the layout are those that its titles name; another path has no page.
unfoldable pub is_page : String → Bool
unfolding lookup
is_page path = is_some (lookup path title_map)

-- `router.replace` and `router.push`
abbrev pub go_to : Option String → Visit → Visit
go_to none v = v
go_to (some to) v = record v { path = to }

-- The layout's effect, after a change of the session or of the path.
unfoldable pub settle : Visit → Visit
unfolding is_page
settle v = if is_page v.path then go_to (redirect v.provider.user v.provider.loading) v else v

-- The visitor chooses a path, submits the login page or logs out in the sidebar; or something that
-- the session waits for comes: the answer to `/me` at the opening, to a login, to the `/me` that
-- follows it, to a logout, or the tokens of a refresh that some call has asked for.
pub data Event : Type 0 where
  path_chosen : String → Event
  submitted : Event
  logout_clicked : Event
  opening_ends : Result (Option Json) → Event
  login_ends : Result (Option Json) → Event
  me_ends : Result (Option Json) → Event
  logout_ends : Event
  tokens_come : (access refresh : String) → Event

-- What is drawn.
pub data Shown : Type 0 where
  login_page not_found : Shown
  inside : View → Shown

unfoldable pub shown : Visit → Shown
unfolding is_page
shown v =
    if is_page v.path
    then inside (dashboard_layout v.provider.user v.provider.loading v.path)
    else if is_login v.path
    then login_page
    else not_found

-- The sidebar stands in the layout.
abbrev pub has_sidebar : Visit → Bool
has_sidebar v = is_page v.path && (not v.provider.loading && has_user v.provider.user)

module _ (env : Env) where
  abbrev tell : Interleaved.Event → Visit → Visit
  tell e v = record v { provider = Interleaved.step env v.provider e }

  -- `router.push("/")`, when the login has not thrown.
  abbrev pub after_login : Result (Option Json) → Visit → Visit
  after_login (ok u) v = record v { path = "/" }
  after_login (err e) v = v

  -- An event, up to the layout's effect.
  unfoldable pub move : Visit → Event → Visit
  move v (path_chosen p) = record v { path = p }
  move v submitted = if is_login v.path then tell login_called v else v
  move v logout_clicked = if has_sidebar v then tell logout_called v else v
  move v (opening_ends r) = tell (opening_answered r) v
  move v (login_ends r) = tell (login_answered r) v
  move v (me_ends r) =
      if nat_eq v.provider.reading 0 then v else after_login r (tell (me_answered r) v)
  move v logout_ends =
      if nat_eq v.provider.leaving 0 then v else record (tell logout_answered v) { path = "/login" }
  move v (tokens_come access refresh) = tell (refreshed access refresh) v

  unfoldable pub step : Visit → Event → Visit
  unfolding settle move
  step v e = settle (move v e)

  -- The page is opened at a path.
  unfoldable pub start : Storage → (path : String) → Visit
  unfolding settle
  start storage path = settle (record { provider = Interleaved.start env storage; path = path })

  abbrev pub run : Visit → List Event → Visit
  run = Runs.run step
