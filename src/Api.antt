-- ===== src/Api.antt =====
-- frontend/lib/api.ts: the token store, the API's base address, and what a request and its
-- outcome are. `Api.Client` has `apiFetch`.
pub mod Client
pub mod Laws
pub mod Outcomes
pub mod Protocol
pub mod Refresh
pub mod Concurrent
use clever_gate.Prelude.{
  ℕ, String, Bool, true, false, not, ◌&&◌, ◌||◌, Option, none, some, List, [], ◌∷◌, ◌++◌, leb, ltb,
  nat_eq, if◌then◌else◌, truthy, includes,
}
use clever_gate.Json.{
  Json, Access, undefined, throws, value, to_text, get, null, bool, num, str, arr, obj,
}
use text.Mathlib.Text.{◌==◌}

-- `window.location`
pub record Location : Type 0 where
  pub hostname : String
  pub origin : String

-- Where the code runs: in a page, or on the server where `window` is undefined; and the build's
-- `NEXT_PUBLIC_API_URL`.
pub record Env : Type 0 where
  pub window : Option Location
  pub env_url : Option String

-- The two keys of `localStorage` that the client uses.
pub record Storage : Type 0 where
  pub access : Option String
  pub refresh : Option String

unfoldable pub get_access_token : Env → Storage → Option String
get_access_token env s = elim env.window [ none ↦ none | some w ↦ s.access ]

unfoldable pub get_refresh_token : Env → Storage → Option String
get_refresh_token env s = elim env.window [ none ↦ none | some w ↦ s.refresh ]

unfoldable pub set_tokens : Env → String → String → Storage → Storage
set_tokens env access refresh s = elim env.window [
  | none ↦ s
  | some w ↦ record { access = some access; refresh = some refresh }
]

unfoldable pub clear_tokens : Env → Storage → Storage
clear_tokens env s = elim env.window [
  | none ↦ s
  | some w ↦ record { access = none; refresh = none }
]

-- `url || d`
abbrev pub url_or : Option String → String → String
url_or none d = d
url_or (some u) d = if truthy u then u else d

-- `envUrl && !envUrl.includes("localhost") && !envUrl.includes("127.0.0.1")`
abbrev pub is_remote : Option String → Bool
is_remote none = false
is_remote (some u) = truthy u && not (includes u "localhost") && not (includes u "127.0.0.1")

-- The page's own address serves the API unless it is a developer's machine.
abbrev pub page_base : Option String → Location → String
page_base url w =
    if w.hostname == "localhost" || w.hostname == "127.0.0.1"
    then url_or url "http://localhost:8000"
    else w.origin

unfoldable pub get_api_base : Env → String
get_api_base env = elim env.window [
  | none ↦ url_or env.env_url "http://127.0.0.1:8000"
  | some w ↦ if is_remote env.env_url then url_or env.env_url "" else page_base env.env_url w
]

-- A request; its body is the value that `JSON.stringify` writes.
pub record Request : Type 0 where
  pub url : String
  pub method : String
  pub headers : List (String × String)
  pub body : Option Json

-- What `res.json()` gives: the value, or the message of the error that it throws.
pub data Body : Type 0 where
  parsed : Json → Body
  unparsable : String → Body

pub data Reply : Type 0 where
  network_error : String → Reply
  response : (status : ℕ) → Body → Reply

-- The server and the network: a reply for each request, which may depend on all earlier ones.
abbrev pub Net : Type 0
Net = List Request → Request → Reply

-- What the client's code changes: the storage, and the requests sent so far.
pub record World : Type 0 where
  pub storage : Storage
  pub sent : List Request

unfoldable pub fetch : Net → Request → World → Reply × World
fetch net r w = (net w.sent r, record w { sent = w.sent ++ r ∷ [] })

-- `res.ok`
abbrev pub is_ok : ℕ → Bool
is_ok status = leb 200 status && ltb status 300

-- What a call of the client throws: an `ApiClientError`, or the error of `fetch` or `res.json()`.
pub data Failure : Type 0 where
  client_error : (status : ℕ) (detail : Json) → Failure
  thrown : (message : String) → Failure

pub data Result {ℓ} (A : Type ℓ) : Type ℓ where
  ok : A → Result A
  err : Failure → Result A

-- `new Error(m)` keeps the text of `m`, and has an empty message for `undefined`.
abbrev pub error_text : Access → String
error_text undefined = ""
error_text a = to_text a

-- The constructor's `typeof detail === "string" ? detail : detail.message`.
abbrev pub detail_message : Json → String
detail_message (str s) = s
detail_message d = error_text (get "message" d)

-- `e.message` of a caught error.
unfoldable pub message : Failure → String
unfolding get
message (client_error status detail) = detail_message detail
message (thrown m) = m
