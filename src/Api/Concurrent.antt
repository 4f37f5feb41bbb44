-- ===== src/Api/Concurrent.antt =====
-- frontend/lib/api.ts: calls of `apiFetch` that run at the same time, over one storage. Each call is
-- cut at its `await`s; which request is answered next, and how, is an event, as are the tokens that a
-- login stores or a logout clears meanwhile.
pub mod Tokens
pub mod Counts
pub mod Progress
pub mod Alone
pub mod Logout
use clever_gate.Runs
use clever_gate.Prelude.{
  ℕ, zero, suc, String, Bool, true, false, Option, none, some, List, [], ◌∷◌, ◌++◌, truthy,
  if◌then◌else◌,
}
use clever_gate.Json.{Json}
use clever_gate.Api.{
  Env, World, Request, Reply, Result, get_access_token, get_refresh_token, set_tokens, clear_tokens,
}
use clever_gate.Api.Client.{
  Options, refresh_request, use_refresh_reply, authorize, request_of, headers_of, first_request,
  finish, is_unauthorized,
}

-- What a call waits for: the reply to its request, that to a refresh after a reply of 401, or that to
-- its request when it was sent again; or nothing any more.
pub data Phase : Type 0 where
  asking : Phase
  refreshing : (first : Reply) → Phase
  repeating : Phase
  settled : Result (Option Json) → Phase

pub record Call : Type 0 where
  pub path : String
  pub options : Options
  pub headers : List (String × String)
  pub phase : Phase

pub record Client : Type 0 where
  pub world : World
  pub calls : List Call

-- A call is begun, the n-th call gets the reply that it waits for, and a login or a logout ends.
pub data Event : Type 0 where
  begins : (path : String) → Options → Event
  replies : (which : ℕ) → Reply → Event
  logs_in : (access refresh : String) → Event
  logs_out : Event

abbrev pub send : Request → World → World
send r w = record w { sent = w.sent ++ r ∷ [] }

abbrev pub settle : Reply → Call → Call
settle r c = record c { phase = settled (finish r) }

module _ (env : Env) where
  -- `apiFetch` up to its first `await`.
  abbrev pub begin : String → Options → World → Call × World
  begin path o w = (
    record { path = path; options = o; headers = headers_of env o w; phase = asking },
    send (first_request env path o w) w,
  )

  -- `refreshAccessToken` up to its `await`.
  abbrev pub ask_refresh : Option String → Reply → Call → World → Call × World
  ask_refresh none first c w = (settle first c, w)
  ask_refresh (some token) first c w =
      let asked : Call × World =
        (record c { phase = refreshing first }, send (refresh_request env token) w) in
      if truthy token then asked else (settle first c, w)

  -- After `refreshAccessToken`.
  abbrev pub after_refresh : Bool × World → Reply → Call → Call × World
  after_refresh (true, w) first c = (
    record c { phase = repeating },
    send (request_of env c.path c.options (authorize (get_access_token env w.storage) c.headers)) w,
  )
  after_refresh (false, w) first c = (settle first c, w)

  -- A call goes on with the reply that it waits for.
  unfoldable pub resume : Phase → Reply → Call → World → Call × World
  resume asking r c w =
      let refresh = ask_refresh (get_refresh_token env w.storage) r c w in
      if is_unauthorized r then refresh else (settle r c, w)
  resume (refreshing first) r c w = after_refresh (use_refresh_reply env r w) first c
  resume repeating r c w = (settle r c, w)
  resume (settled outcome) r c w = (c, w)

  unfoldable pub reply_to : ℕ → Reply → List Call → World → List Call × World
  reply_to n r [] w = ([], w)
  reply_to zero r (c ∷ cs) w = let (d, v) = resume c.phase r c w in (d ∷ cs, v)
  reply_to (suc n) r (c ∷ cs) w = let (ds, v) = reply_to n r cs w in (c ∷ ds, v)

  unfoldable pub step : Client → Event → Client
  step s (begins path o) =
      let (c, w) = begin path o s.world in record { world = w; calls = s.calls ++ c ∷ [] }
  step s (replies n r) =
      let (cs, w) = reply_to n r s.calls s.world in record { world = w; calls = cs }
  step s (logs_in access refresh) = record s {
    world = record s.world { storage = set_tokens env access refresh s.world.storage };
  }
  step s logs_out = record s {
    world = record s.world { storage = clear_tokens env s.world.storage };
  }

  abbrev pub run : Client → List Event → Client
  run = Runs.run step

-- A client without calls.
abbrev pub idle : World → Client
idle w = record { world = w; calls = [] }
