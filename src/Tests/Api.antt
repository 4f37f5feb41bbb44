-- ===== src/Tests/Api.antt =====
-- The API client and the session, against a server that knows one pair of tokens.
use text.Mathlib.Text.{◌==◌}
use text.Mathlib.TextEquality.{eq_iff}
use clever_gate.Prelude.{
  ◌≡◌, ◌⊎◌, ◌↔◌, refl, String, false, none, some, [], ◌∷◌, ◌++◌, lookup, if◌then◌else◌, arith,
  includes,
}
use clever_gate.Json.{Fields, field, end, str, obj}
use clever_gate.Api.{
  Env, World, Net, Request, response, parsed, unparsable, get_access_token, get_refresh_token,
  get_api_base,
}
use clever_gate.Api.Client.{
  Options, refresh_access_token, authorize, request_of, headers_of, first_request, finish,
  api_fetch,
}
use clever_gate.Api.Protocol.{Call, Call_iff}
use clever_gate.Runs
use clever_gate.Api.{network_error, Result}
use clever_gate.Json.{Json}
use clever_gate.Prelude.{List, Option, length, ◌≤◌}
use clever_gate.Api.Concurrent.{
  Client, Event, begins, replies, logs_out, idle, run, step, resume, reply_to,
}
use clever_gate.Api.Concurrent.Counts.{outcome_at}
use clever_gate.Api.Concurrent.Progress.{run_progress}
use clever_gate.Api.Concurrent.Tokens.{OneGives, run-OneGives}
use clever_gate.Api.Concurrent.Logout.{IsCleared, run-IsCleared}
use clever_gate.Api.Outcomes.{get_api_base_remote}

abbrev pub page_env : Env
page_env = record {
  window = some (record { hostname = "gate.example"; origin = "https://gate.example" });
  env_url = none;
}

abbrev new_tokens : Fields
new_tokens = field "access_token" (str "new") (field "refresh_token" (str "next") end)

-- The server takes the token "new", and "r1" as a refresh token.
abbrev server : Net
server sent r =
    if r.url == "https://gate.example/api/admin/auth/refresh"
    then response 200 (parsed (obj new_tokens))
    else elim (lookup "Authorization" r.headers) [
      | none ↦ response 401 (parsed (obj end))
      | some t ↦
          if t == "Bearer new"
          then response 200 (parsed (str "fine"))
          else response 401 (parsed (obj end))
    ]

abbrev closed : Net
closed sent r = response 401 (unparsable "no JSON")

abbrev pub old_world : World
old_world = record { storage = record { access = some "old"; refresh = some "r1" }; sent = [] }

abbrev get_options : Options
get_options = record { method = "GET"; headers = []; body = none }

abbrev after_first : World
after_first = record old_world {
  sent = old_world.sent ++ first_request page_env "/x" get_options old_world ∷ [];
}

abbrev refreshed : World
refreshed = (refresh_access_token page_env server after_first).1

abbrev again : Request
again = request_of page_env "/x" get_options (
    authorize (get_access_token page_env refreshed.storage)
      (headers_of page_env get_options old_world))

-- The old token is refused, the tokens are refreshed, and the request is sent once more.
Call_iff_example :
    let v = record refreshed { sent = refreshed.sent ++ again ∷ [] } in
    Call page_env server "/x" get_options old_world (finish (server refreshed.sent again)) v ↔ (
      api_fetch page_env server "/x" get_options old_world
      ≡ (finish (server refreshed.sent again), v))
Call_iff_example =
    Call_iff page_env server "/x" get_options old_world (finish (server refreshed.sent again))
      (record refreshed { sent = refreshed.sent ++ again ∷ [] })

get_api_base_remote_example :
    (get_api_base page_env ≡ "https://gate.example")
    ⊎ ((u : String) × (page_env.env_url ≡ some u)
        × (get_api_base page_env ≡ u)
        × (includes u "localhost" ≡ false)
        × (includes u "127.0.0.1" ≡ false))
get_api_base_remote_example =
    get_api_base_remote page_env
      (record { hostname = "gate.example"; origin = "https://gate.example" }) refl
      (ground (arith, eq_iff "gate.example" "localhost"))
      (ground (arith, eq_iff "gate.example" "127.0.0.1"))

-- Two calls at once, which are both refused.
abbrev two_begun : List Event
two_begun =
    begins "/x" get_options
    ∷ begins "/y" get_options
    ∷ replies 0 (response 401 (parsed (obj end)))
    ∷ replies 1 (response 401 (parsed (obj end)))
    ∷ []

-- The first of them is refreshed, its user logs out, and the second gets its replies.
abbrev both_answered : List Event
both_answered =
    replies 0 (response 200 (parsed (obj new_tokens)))
    ∷ logs_out
    ∷ replies 1 (network_error "offline")
    ∷ replies 1 (response 500 (unparsable "no JSON"))
    ∷ replies 1 (network_error "offline")
    ∷ []

run_progress_example :
    let s = run page_env (idle old_world) two_begun in
    (length s.world.sent ≤ 6)
    × ((o : Result (Option Json)) × (outcome_at 1 (run page_env s both_answered).calls ≡ some o))
unfolding Runs.run step resume reply_to get_refresh_token
run_progress_example =
    run_progress page_env old_world two_begun both_answered 1 (omega arith) (omega arith)

run-OneGives_example :
    let v = (run page_env (run page_env (idle old_world) two_begun) both_answered).world in
    (v.storage ≡ (run page_env (idle old_world) two_begun).world.storage)
    ⊎ OneGives page_env (run page_env (idle old_world) two_begun) both_answered v.storage
run-OneGives_example = run-OneGives page_env (run page_env (idle old_world) two_begun) both_answered

-- A call is refused only after the logout.
abbrev asked_once : Client
asked_once = step page_env (idle old_world) (begins "/x" get_options)

run-IsCleared_example :
    IsCleared page_env
      (run page_env (step page_env asked_once logs_out) (
        replies 0 (response 401 (parsed (obj end)))
        ∷ begins "/y" get_options
        ∷ replies 1 (response 200 (parsed (obj new_tokens)))
        ∷ [])).world.storage
unfolding step
run-IsCleared_example =
    run-IsCleared page_env asked_once
      (replies 0 (response 401 (parsed (obj end)))
        ∷ begins "/y" get_options
        ∷ replies 1 (response 200 (parsed (obj new_tokens)))
        ∷ [])
      (refl, tt) (refl, (refl, (refl, tt)))
