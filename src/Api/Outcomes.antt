-- ===== src/Api/Outcomes.antt =====
-- What the client's requests carry, what its caller gets, and what a refresh stores.
use text.Mathlib.Text.{◌==◌}
use clever_gate.Prelude.{
  text_tests, ℕ, String, true, false, ◌&&◌, Option, none, some, List, [], ◌∷◌, ◌++◌, ◌≡◌, refl, ◌≢◌,
  ◌⊎◌, inl, inr, arith, truthy, Bool-cases, Option-cases, ◌<>◌, lookup, lookup-insert, includes,
  if◌then◌else◌,
}
use clever_gate.Json.{Json, Fields, obj, get, to_text, find_field}
use clever_gate.Api.{
  Env, Location, World, Net, Reply, network_error, response, parsed, unparsable, is_ok, fetch,
  get_refresh_token, set_tokens, get_api_base, is_remote,
}
use clever_gate.Api.Client.{
  refresh_request, use_refresh_reply, refresh_with, refresh_access_token, authorize,
}

-- `Authorization` is replaced where there is a token; no other header changes.
pub lookup-authorize :
    (k : String) (token : Option String) (hs : List (String × String))
    → lookup k (authorize token hs) ≡ elim token [
      | none ↦ lookup k hs
      | some t ↦ if truthy t && ("Authorization" == k) then some ("Bearer " <> t) else lookup k hs
    ]
unfolding authorize
lookup-authorize k none hs = refl
lookup-authorize k (some t) hs = ground (arith, lookup-insert "Authorization" k ("Bearer " <> t) hs)

-- In a page that is not served from a developer's machine the API's address is the page's own
-- origin, or a configured address that names no developer's machine.
pub get_api_base_remote :
    (env : Env) (w : Location)
    → env.window ≡ some w
    → w.hostname ≢ "localhost"
    → w.hostname ≢ "127.0.0.1"
    → (get_api_base env ≡ w.origin)
      ⊎ ((u : String) × (env.env_url ≡ some u)
          × (get_api_base env ≡ u)
          × (includes u "localhost" ≡ false)
          × (includes u "127.0.0.1" ≡ false))
unfolding get_api_base
get_api_base_remote env w h p q = elim (Option-cases env.env_url) [
  | inl absent ↦ inl (grind text_tests)
  | inr (u, given) ↦ elim (Bool-cases (is_remote (some u))) [
    | inl remote ↦ inr (u, given, ground arith, ground arith, ground arith)
    | inr local ↦ inl (grind text_tests)
  ]
]

-- What a successful refresh has done.
pub record IsRefreshed (env : Env) (net : Net) (w w' : World) : Type 0 where
  pub token : String
  pub status : ℕ
  pub data_read : Json
  pub held : get_refresh_token env w.storage ≡ some token
  pub accepted : is_ok status ≡ true
  pub replied : net w.sent (refresh_request env token) ≡ response status (parsed data_read)
  pub stored :
      w'.storage
      ≡ set_tokens env
          (to_text (get "access_token" data_read))
          (to_text (get "refresh_token" data_read))
          w.storage
  pub sent : w'.sent ≡ w.sent ++ refresh_request env token ∷ []

pub use_refresh_reply_succeeds :
    (env : Env) (r : Reply) (w : World)
    → (use_refresh_reply env r w).0 ≡ true
    → (status : ℕ) × (d : Json) × (r ≡ response status (parsed d))
      × (is_ok status ≡ true)
      × ((use_refresh_reply env r w).1.sent ≡ w.sent)
      × ((use_refresh_reply env r w).1.storage
          ≡ set_tokens env
              (to_text (get "access_token" d))
              (to_text (get "refresh_token" d))
              w.storage)
unfolding use_refresh_reply
use_refresh_reply_succeeds env (network_error m) w h = cc
use_refresh_reply_succeeds env (response status (unparsable m)) w h = cc
use_refresh_reply_succeeds env (response status (parsed d)) w h =
    (status, d, refl, ground arith, ground arith, ground arith)

refresh_with_succeeds :
    (env : Env) (net : Net) (t : Option String) (w : World)
    → get_refresh_token env w.storage ≡ t
    → (refresh_with env net t w).0 ≡ true
    → IsRefreshed env net w (refresh_with env net t w).1
unfolding fetch
refresh_with_succeeds env net none w e h = cc
refresh_with_succeeds env net (some t) w e h =
    let r = refresh_request env t in
    let w1 : World = record w { sent = w.sent ++ r ∷ [] } in
    let run : (use_refresh_reply env (net w.sent r) w1).0 ≡ true = ground arith in
    let (status, d, replied, accepted, same, stored) =
      use_refresh_reply_succeeds env (net w.sent r) w1 run in
    record {
      token = t;
      status = status;
      data_read = d;
      held = e;
      accepted = accepted;
      replied = replied;
      stored = ground arith;
      sent = ground arith;
    }

-- A refresh succeeds only by a reply of 200 to 299 with a JSON body to the one request that it
-- sends with the stored token, and then stores that body's two tokens.
refresh_access_token-IsRefreshed :
    (env : Env) (net : Net) (w : World)
    → (refresh_access_token env net w).0 ≡ true
    → IsRefreshed env net w (refresh_access_token env net w).1
unfolding refresh_access_token
refresh_access_token-IsRefreshed env net w h =
    refresh_with_succeeds env net (get_refresh_token env w.storage) w refl h

-- In a page, an accepted reply to a refresh whose object lacks both tokens counts as a success,
-- and the text "undefined" is stored as the access token and as the refresh token.
pub use_refresh_reply_undefined :
    (env : Env) (w : World) (l : Location) (status : ℕ) (fs : Fields)
    → env.window ≡ some l
    → is_ok status ≡ true
    → find_field "access_token" fs ≡ none
    → find_field "refresh_token" fs ≡ none
    → let (done, w') = use_refresh_reply env (response status (parsed (obj fs))) w in
      (done ≡ true)
      × (w'.storage ≡ record { access = some "undefined"; refresh = some "undefined" })
unfolding use_refresh_reply get set_tokens
use_refresh_reply_undefined env w l status fs p h a r = ground arith
