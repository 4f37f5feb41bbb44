-- ===== src/Tests/Panel.antt =====
-- The session, the panel around the pages, and its smaller pages.

use clever_gate.Prelude.{
  lookup, lookup, ◌↔◌, ℕ, ◌≡◌, ◌↔◌, refl, true, false, Option, none, some, List, [], ◌∷◌,
}
use clever_gate.Types.{User}
use clever_gate.Users.{open_user, save_user}
use clever_gate.Users.Inputs.{
  Input, type_all, username_typed, first_name_typed, last_name_typed, admin_switched,
}
use clever_gate.Users.Saving.{expected_call, save_user_typed}
use clever_gate.Providers.Forms.{Call, patch}
use clever_gate.Json.{bool}
use clever_gate.Api.{Result, ok}
use clever_gate.Json.{Json, field, end, str, obj, null}
use clever_gate.Api.{Net, network_error, response, parsed, thrown, fetch}
use clever_gate.Api.Client.{finish, api_fetch, api_get, api_post}
use clever_gate.Auth.{initial, login, login_body, use_tokens, load_me}
use clever_gate.Auth.Laws.{IsLoggedIn, login-IsLoggedIn}
use clever_gate.Theme.{Stored, noir, toggle, choose, Event, Registry}
use clever_gate.Theme
use clever_gate.Theme.Laws.{run-mount}
use clever_gate.Streams.Polling.{Client, create, fires, settles, stop}
use clever_gate.Streams.Polling
use clever_gate.Streams.Polling.Laws.{run_after_stop}
use clever_gate.Tests.Api.{page_env, old_world}
use clever_gate.Streams.Polling.Refinement.{
  Implements, spec_run, spec_start, moves_of, run-Implements,
}
use clever_gate.Shell.Visit
use clever_gate.Runs
use clever_gate.Auth.Interleaved
use clever_gate.Auth.Interleaved.Laws.{IsHeld, run-IsHeld}
use clever_gate.Api.{err}
use clever_gate.Api.{get_access_token}
use clever_gate.Json.{is_truthy}

-- A server that answers each request with the same value.
abbrev answers : ℕ → Json → Net
answers status v sent r = response status (parsed v)

abbrev offline : Net
offline sent r = network_error "offline"

abbrev admin : Json
admin = obj (field "access_token" (str "a") (field "refresh_token" (str "r") end))

login-IsLoggedIn_example :
    IsLoggedIn page_env
      (answers 200 admin)
      (api_post page_env
        (answers 200 admin)
        "/api/admin/auth/login"
        (some (login_body "root" "pw" none))
        old_world).0
      (record (initial old_world) {
        world =
            (api_post page_env
              (answers 200 admin)
              "/api/admin/auth/login"
              (some (login_body "root" "pw" none))
              old_world).1;
      })
      (login page_env (answers 200 admin) "root" "pw" none (initial old_world)).1
unfolding login api_post api_get api_fetch fetch finish use_tokens load_me
login-IsLoggedIn_example =
    login-IsLoggedIn page_env (answers 200 admin) "root" "pw" none (initial old_world) refl

abbrev no_choice : Stored
no_choice = record { scheme = none; variant = some "" }

run-mount_example :
    let r = Theme.run (Theme.mount (Theme.initial no_choice)) (toggle ∷ choose noir ∷ []) in
    let later = Theme.mount (Theme.initial r.stored) in
    (later.color_scheme ≡ r.color_scheme)
    × (later.theme_variant ≡ r.theme_variant)
    × (r.attribute ≡ some r.theme_variant)
    × (later.attribute ≡ r.attribute)
run-mount_example = run-mount no_choice (toggle ∷ choose noir ∷ [])

abbrev polled : List (Polling.Event ℕ)
polled = fires 0 ∷ settles (some 7) false ∷ fires 1 ∷ []

run-Implements_example :
    Implements
      (Polling.run (create ℕ) polled)
      (spec_run (spec_start ℕ) (moves_of (create ℕ) polled))
run-Implements_example = run-Implements polled

run_after_stop_example :
    let c = Polling.run (create ℕ) polled in
    let d = Polling.run (Polling.step c stop) (settles (some 8) false ∷ fires 2 ∷ []) in
    (d.fetches ≡ c.fetches) × (d.delivered ≡ c.delivered) × (d.pending ≡ [])
run_after_stop_example = run_after_stop polled (settles (some 8) false ∷ fires 2 ∷ [])

-- An opening, a look at the logs, the way out and back in.
abbrev way_in : List Visit.Event
way_in =
    Visit.opening_ends (ok (some admin)) ∷ Visit.path_chosen "/logs" ∷ Visit.logout_clicked ∷ []

abbrev visit : List Visit.Event
visit =
    Visit.opening_ends (ok (some admin))
    ∷ Visit.path_chosen "/logs"
    ∷ Visit.logout_clicked
    ∷ Visit.logout_ends
    ∷ Visit.submitted
    ∷ Visit.login_ends (ok (some admin))
    ∷ Visit.me_ends (ok (some admin))
    ∷ []

-- Another page is asked for, and a login is begun that nobody answers.
abbrev later : List Visit.Event
later = Visit.path_chosen "/settings" ∷ Visit.submitted ∷ []

abbrev edited_user : User
edited_user = record {
  id = "u1";
  username = "ada";
  email = "ada@gate.example";
  first_name = some "Ada";
  last_name = none;
  is_active = true;
  is_admin = false;
  created_at = "2024-01-01";
  last_login_at = none;
}

abbrev typed_inputs : List Input
typed_inputs =
    first_name_typed "A"
    ∷ username_typed "root"
    ∷ admin_switched true
    ∷ first_name_typed ""
    ∷ last_name_typed "Byron"
    ∷ []

abbrev accepting : Call → Result (Option Json)
accepting call = ok none

save_user_typed_example :
    let s =
      save_user accepting
        (some edited_user)
        (type_all (some edited_user) (open_user (some edited_user)) typed_inputs) in
    (s.calls
      ≡ patch "/api/admin/users/u1" (
          obj (
            field "first_name" null (
              field "last_name"
                (str "Byron")
                (field "is_admin" (bool true) (field "is_active" (bool true) end)))))
        ∷ [])
    × (s.saving ≡ false)
    × ((s.is_saved ≡ true)
        ↔ ((r : Option Json) × (accepting (expected_call (some edited_user) typed_inputs) ≡ ok r)))
save_user_typed_example = save_user_typed accepting (some edited_user) typed_inputs

-- A login is called while the opening's request is under way, and is answered after it has failed.
abbrev slow_opening : List Interleaved.Event
slow_opening =
    Interleaved.login_called
    ∷ Interleaved.opening_answered (err (thrown "offline"))
    ∷ Interleaved.login_answered (ok (some admin))
    ∷ Interleaved.me_answered (ok (some admin))
    ∷ []

run-IsHeld_example :
    IsHeld page_env
      (Interleaved.run page_env (Interleaved.start page_env old_world.storage) slow_opening).storage
unfolding Runs.run Interleaved.step Interleaved.start get_access_token is_truthy
run-IsHeld_example =
    run-IsHeld page_env (record { hostname = "gate.example"; origin = "https://gate.example" })
      old_world.storage slow_opening refl (tt, (refl, (tt, (tt, tt)))) refl
