-- ===== src/Api/Client.antt =====
-- frontend/lib/api.ts: refreshing the tokens, and `apiFetch` with its one retry.
use clever_gate.Prelude.{
  ℕ, String, Bool, true, false, Option, none, some, List, [], ◌∷◌, nat_eq, if◌then◌else◌, truthy,
  ◌<>◌, insert,
}
use clever_gate.Json.{
  Json, Access, undefined, throws, value, get, get_opt, is_truthy, to_text, str, obj, Fields,
}
use clever_gate.Api.{
  Env, World, Net, Request, Reply, network_error, response, Body, parsed, unparsable, Result, ok,
  err, client_error, thrown, is_ok, fetch, get_access_token, get_refresh_token, set_tokens,
  get_api_base,
}
use clever_gate.Show.{show_nat}

abbrev json_type : List (String × String)
json_type = ("Content-Type", "application/json") ∷ []

unfoldable pub refresh_request : Env → String → Request
refresh_request env refresh = record {
  url = get_api_base env <> "/api/admin/auth/refresh";
  method = "POST";
  headers = json_type;
  body = some (obj (Fields.field "refresh_token" (str refresh) Fields.end));
}

-- `setTokens(data.access_token, data.refresh_token)`, whose arguments may throw.
abbrev pub store_pair : Env → Json → World → Bool × World
store_pair env d w = elim (get "access_token" d) [
  | throws ↦ (false, w)
  | a ↦ (
    true,
    record w { storage = set_tokens env (to_text a) (to_text (get "refresh_token" d)) w.storage },
  )
]

-- What becomes of the reply to a refresh; each error that is thrown is caught.
unfoldable pub use_refresh_reply : Env → Reply → World → Bool × World
use_refresh_reply env (network_error m) w = (false, w)
use_refresh_reply env (response status (parsed d)) w =
    if is_ok status then store_pair env d w else (false, w)
use_refresh_reply env (response status (unparsable m)) w = (false, w)

-- `if (!refresh) return false`, then the request.
abbrev pub refresh_with : Env → Net → Option String → World → Bool × World
refresh_with env net none w = (false, w)
refresh_with env net (some refresh) w =
    let (reply, w') = fetch net (refresh_request env refresh) w in
    if truthy refresh then use_refresh_reply env reply w' else (false, w)

unfoldable pub refresh_access_token : Env → Net → World → Bool × World
refresh_access_token env net w = refresh_with env net (get_refresh_token env w.storage) w

pub record Options : Type 0 where
  pub method : String
  pub headers : List (String × String)
  pub body : Option Json

-- `{ ...base, ...given }`
unfoldable pub spread : List (String × String) → List (String × String) → List (String × String)
spread base [] = base
spread base ((k, v) ∷ given) = spread (insert k v base) given

-- `if (token) headers.Authorization = ...`
unfoldable pub authorize : Option String → List (String × String) → List (String × String)
authorize none headers = headers
authorize (some token) headers =
    if truthy token then insert "Authorization" ("Bearer " <> token) headers else headers

unfoldable pub request_of : Env → String → Options → List (String × String) → Request
request_of env path o headers = record {
  url = get_api_base env <> path;
  method = o.method;
  headers = headers;
  body = o.body;
}

-- `body?.error?.message`
abbrev error_message : Access → Access
error_message (value e) = get_opt "message" e
error_message a = undefined

abbrev access_or : Json → Access → Json
access_or d (value v) = v
access_or d a = d

-- What an error reply's body says: `detail`, else `error` where it has a message, else the status.
unfoldable pub error_detail : ℕ → Body → Json
unfolding get_opt is_truthy
error_detail status (unparsable m) = str ("HTTP " <> show_nat status)
error_detail status (parsed d) =
    let plain = str ("HTTP " <> show_nat status) in
    if is_truthy (get_opt "detail" d)
    then access_or plain (get_opt "detail" d)
    else if is_truthy (error_message (get_opt "error" d))
    then access_or plain (get_opt "error" d)
    else plain

abbrev json_of : Body → Result (Option Json)
json_of (parsed d) = ok (some d)
json_of (unparsable m) = err (thrown m)

-- The last part of `apiFetch`: `undefined` is `none`.
unfoldable pub finish : Reply → Result (Option Json)
finish (network_error m) = err (thrown m)
finish (response status body) =
    if is_ok status
    then (if nat_eq status 204 then ok none else json_of body)
    else err (client_error status (error_detail status body))

abbrev pub is_unauthorized : Reply → Bool
is_unauthorized (network_error m) = false
is_unauthorized (response status body) = nat_eq status 401

-- What follows a reply of 401: one refresh, and the request once more if that succeeded.
unfoldable pub retry :
    Env → Net → String → Options → List (String × String) → Reply → World → Reply × World
retry env net path o headers first w =
    let (refreshed, w') = refresh_access_token env net w in
    if refreshed
    then fetch net (request_of env path o (authorize (get_access_token env w'.storage) headers)) w'
    else (first, w')

unfoldable pub headers_of : Env → Options → World → List (String × String)
unfolding spread authorize
headers_of env o w = authorize (get_access_token env w.storage) (spread json_type o.headers)

unfoldable pub first_request : Env → String → Options → World → Request
unfolding headers_of request_of
first_request env path o w = request_of env path o (headers_of env o w)

unfoldable pub api_fetch : Env → Net → String → Options → World → Result (Option Json) × World
unfolding first_request retry headers_of
api_fetch env net path o w =
    let (first, w1) = fetch net (first_request env path o w) w in
    let (last, w2) =
      if is_unauthorized first
      then retry env net path o (headers_of env o w) first w1
      else (first, w1) in
    (finish last, w2)

-- The object `api`.
abbrev plain_options : String → Option Json → Options
plain_options method body = record { method = method; headers = []; body = body }

unfoldable pub api_get : Env → Net → String → World → Result (Option Json) × World
api_get env net path = api_fetch env net path (plain_options "GET" none)

unfoldable pub api_post : Env → Net → String → Option Json → World → Result (Option Json) × World
api_post env net path body = api_fetch env net path (plain_options "POST" body)

unfoldable pub api_patch : Env → Net → String → Json → World → Result (Option Json) × World
api_patch env net path body = api_fetch env net path (plain_options "PATCH" (some body))

unfoldable pub api_delete : Env → Net → String → World → Result (Option Json) × World
api_delete env net path = api_fetch env net path (plain_options "DELETE" none)
