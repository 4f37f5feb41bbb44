-- ===== src/Auth.antt =====
-- frontend/lib/auth.tsx: the session of the admin panel. The response of `/me` is kept as the JSON
-- value that it is; `undefined` and `null` are no user.
pub mod Laws
pub mod Interleaved
use clever_gate.Prelude.{
  String, Bool, true, false, not, Option, none, some, List, if◌then◌else◌, truthy, or_null,
}
use clever_gate.Json.{
  Json, Fields, Access, value, undefined, is_truthy, to_text, get, str, null, obj,
}
use clever_gate.Api.{
  Env, World, Net, Result, ok, err, Failure, thrown, get_access_token, set_tokens, clear_tokens,
}
use clever_gate.Api.Client.{api_get, api_post}

-- `user` and `loading`, with what the API client keeps.
pub record Session : Type 0 where
  pub user : Option Json
  pub loading : Bool
  pub world : World

abbrev pub initial : World → Session
initial w = record { user = none; loading = true; world = w }

-- `!!user`
abbrev pub has_user : Option Json → Bool
has_user none = false
has_user (some u) = is_truthy (value u)

-- The outcome of `/me` when the page is opened; `finally` ends the loading.
unfoldable pub use_me : Env → Result (Option Json) → World → Session
use_me env (ok u) w = record { user = u; loading = false; world = w }
use_me env (err e) w = record {
  user = none;
  loading = false;
  world = record w { storage = clear_tokens env w.storage };
}

abbrev pub me_path : String
me_path = "/api/admin/auth/me"

-- `if (!token)`: an empty text is no token either.
abbrev pub token_given : Option String → Bool
token_given none = false
token_given (some t) = truthy t

-- The effect that runs once, when the panel is opened.
unfoldable pub mount : Env → Net → Session → Session
unfolding use_me
mount env net s =
    let (r, w) = api_get env net me_path s.world in
    if token_given (get_access_token env s.world.storage)
    then use_me env r w
    else record s { loading = false }

abbrev pub json_or_null : Option String → Json
json_or_null none = null
json_or_null (some s) = str s

abbrev pub some_text : Option String → Option String
some_text none = none
some_text (some s) = or_null s

unfoldable pub login_body : String → String → Option String → Json
login_body username password totp_code = obj (
    Fields.field "username" (str username) (
      Fields.field "password" (str password)
        (Fields.field "totp_code" (json_or_null (some_text totp_code)) Fields.end)))

-- `const me = await api.get(...); setUser(me)`
abbrev pub take_me : Result (Option Json) → World → Session → Result (Unit {0}) × Session
take_me (ok u) w s = (ok tt, record s { user = u; world = w })
take_me (err e) w s = (err e, record s { world = w })

unfoldable pub load_me : Env → Net → Session → Result (Unit {0}) × Session
load_me env net s = let (r, w) = api_get env net me_path s.world in take_me r w s

-- What `undefined.access_token` throws; the text is the engine's.
abbrev no_body : Failure
no_body = thrown "Cannot read properties of undefined"

-- `setTokens(res.access_token, res.refresh_token)`
unfoldable pub store_tokens : Env → Json → Session → Session
store_tokens env d s =
    let stored =
      set_tokens env (to_text (get "access_token" d)) (to_text (get "refresh_token" d))
        s.world.storage in
    record s { world = record { storage = stored; sent = s.world.sent } }

-- The reply to the login: its two tokens are stored, then the user is read.
unfoldable pub use_tokens : Env → Net → Result (Option Json) → Session → Result (Unit {0}) × Session
use_tokens env net (err e) s = (err e, s)
use_tokens env net (ok none) s = (err no_body, s)
use_tokens env net (ok (some null)) s = (err no_body, s)
use_tokens env net (ok (some d)) s = load_me env net (store_tokens env d s)

unfoldable pub login :
    Env → Net → String → String → Option String → Session → Result (Unit {0}) × Session
unfolding use_tokens
login env net username password totp_code s =
    let (r, w) =
      api_post env net "/api/admin/auth/login" (some (login_body username password totp_code))
        s.world in
    use_tokens env net r (record s { world = w })

-- The outcome of the call does not matter.
unfoldable pub logout : Env → Net → Session → Session
logout env net s =
    let w = (api_post env net "/api/admin/auth/logout" none s.world).1 in
    record s { user = none; world = record { storage = clear_tokens env w.storage; sent = w.sent } }
