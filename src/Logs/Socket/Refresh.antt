-- ===== src/Logs/Socket/Refresh.antt =====
-- frontend/app/(dashboard)/logs/page.tsx, `refreshToken`: the page's own refresh, and that of the
-- API client.
use clever_gate.Prelude.{
  String, Bool, false, Option, none, some, ◌≡◌, refl, arith, truthy, ◌↔◌, if◌then◌else◌, ◌++◌, ◌∷◌,
  [],
}
use clever_gate.Json.{Json, Access, throws, get, to_text}
use clever_gate.Api.{
  Env, World, Net, Reply, network_error, response, parsed, unparsable, fetch, get_refresh_token,
  set_tokens, is_ok,
}
use clever_gate.Api.Client.{refresh_request, use_refresh_reply, refresh_with, refresh_access_token}

-- `data.access_token`, where it may be `undefined`.
abbrev pub store_returned : Env → Json → World → Option Access × World
store_returned env d w = elim (get "access_token" d) [
  | throws ↦ (none, w)
  | a ↦ (
    some a,
    record w { storage = set_tokens env (to_text a) (to_text (get "refresh_token" d)) w.storage },
  )
]

unfoldable pub use_reply : Env → Reply → World → Option Access × World
use_reply env (network_error m) w = (none, w)
use_reply env (response status (parsed d)) w =
    if is_ok status then store_returned env d w else (none, w)
use_reply env (response status (unparsable m)) w = (none, w)

abbrev returned_with : Env → Net → Option String → World → Option Access × World
returned_with env net none w = (none, w)
returned_with env net (some refresh) w =
    let (reply, w') = fetch net (refresh_request env refresh) w in
    if truthy refresh then use_reply env reply w' else (none, w)

-- `null` is `none`.
unfoldable pub refresh_token : Env → Net → World → Option Access × World
refresh_token env net w = returned_with env net (get_refresh_token env w.storage) w

-- The two refreshes agree on a result and on what they leave.
abbrev Agrees : Option Access × World → Bool × World → Type 0
Agrees r s = ((r.0 ≡ none) ↔ (s.0 ≡ false)) × (r.1 ≡ s.1)

use_reply-Agrees :
    (env : Env) (r : Reply) (w : World) → Agrees (use_reply env r w) (use_refresh_reply env r w)
unfolding use_reply use_refresh_reply
use_reply-Agrees env (network_error m) w = ((λ e. refl, λ e. refl), refl)
use_reply-Agrees env (response status (parsed d)) w = ground arith
use_reply-Agrees env (response status (unparsable m)) w = ((λ e. refl, λ e. refl), refl)

returned_with-Agrees :
    (env : Env) (net : Net) (t : Option String) (w : World)
    → Agrees (returned_with env net t w) (refresh_with env net t w)
unfolding fetch
returned_with-Agrees env net none w = ((λ e. refl, λ e. refl), refl)
returned_with-Agrees env net (some t) w =
    let r = refresh_request env t in
    let w1 : World = record w { sent = w.sent ++ r ∷ [] } in
    let (same, after) = use_reply-Agrees env (net w.sent r) w1 in ground arith

-- The page's refresh gives `null` exactly when the client's would fail, sends the same requests
-- and stores the same tokens.
pub refresh_token-Agrees :
    (env : Env) (net : Net) (w : World)
    → ((refresh_token env net w).0 ≡ none ↔ (refresh_access_token env net w).0 ≡ false)
      × ((refresh_token env net w).1 ≡ (refresh_access_token env net w).1)
unfolding refresh_token refresh_access_token
refresh_token-Agrees env net w = returned_with-Agrees env net (get_refresh_token env w.storage) w
