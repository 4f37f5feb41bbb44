-- ===== src/Api/Protocol.antt =====
-- The exchanges that `apiFetch` may have with the server, as a relation that does not follow the code:
-- which requests are sent, what is stored then, and what the caller gets.
use clever_gate.Prelude.{
  String, Bool, true, false, Option, [], ◌∷◌, ◌++◌, ◌≡◌, refl, ◌↔◌, inl, inr, subst, Bool-cases,
  if◌then◌else◌,
}
use clever_gate.Json.{Json}
use clever_gate.Api.{Env, World, Net, Request, Result, fetch, get_access_token}
use clever_gate.Api.Client.{
  Options, authorize, request_of, headers_of, first_request, finish, is_unauthorized, retry,
  api_fetch,
}
use clever_gate.Api.Refresh.{Refresh, refresh_access_token-Refresh, Refresh-refresh_access_token}

-- A call: its outcome for the caller, and the world after it.
module _ (env : Env) (net : Net) (path : String) (o : Options) (w : World) where
  abbrev pub own : Request
  own = first_request env path o w

  -- The same request, with the access token that is stored then.
  abbrev pub again : World → Request
  again v = request_of env path o (authorize (get_access_token env v.storage) (headers_of env o w))

  abbrev pub sent_once : World
  sent_once = record w { sent = w.sent ++ own ∷ [] }

  pub data Call : Result (Option Json) → World → Type 0 where
    answered : is_unauthorized (net w.sent own) ≡ false → Call (finish (net w.sent own)) sent_once
    unrefreshed :
        (v : World)
        → is_unauthorized (net w.sent own) ≡ true
        → Refresh env net sent_once false v
        → Call (finish (net w.sent own)) v
    repeated :
        (v : World)
        → is_unauthorized (net w.sent own) ≡ true
        → Refresh env net sent_once true v
        → Call (finish (net v.sent (again v))) (record v { sent = v.sent ++ again v ∷ [] })

  retried :
      (refreshed : Bool) (v : World)
      → is_unauthorized (net w.sent own) ≡ true
      → Refresh env net sent_once refreshed v
      → let (last, u) = (if refreshed then fetch net (again v) v else (net w.sent own, v)) in
        Call (finish last) u
  unfolding fetch
  retried false v h r = unrefreshed v h r
  retried true v h r = repeated v h r

  api_fetch-Call : Call (api_fetch env net path o w).0 (api_fetch env net path o w).1
  unfolding api_fetch fetch retry
  api_fetch-Call = elim (Bool-cases (is_unauthorized (net w.sent own))) [
    | inr other ↦ rw other (answered other)
    | inl refused ↦
        rw refused (retried _ _ refused (refresh_access_token-Refresh env net sent_once))
  ]

  Call-api_fetch :
      (r : Result (Option Json)) (v : World) → Call r v → api_fetch env net path o w ≡ (r, v)
  unfolding api_fetch fetch retry
  Call-api_fetch r v (answered other) = rw other refl
  Call-api_fetch r v (unrefreshed u refused h) =
      rw (refused, Refresh-refresh_access_token env net sent_once false u h) refl
  Call-api_fetch r v (repeated u refused h) =
      rw (refused, Refresh-refresh_access_token env net sent_once true u h) refl

  -- A call of `apiFetch` has a result and leaves a world exactly as the relation says: a reply other
  -- than 401 to its own request is the outcome, or a reply of 401 after which a refresh is in vain,
  -- or, after a refresh that stores new tokens, the reply to the same request with the new one. A
  -- refresh is asked for only with a stored token, and grants tokens only by a JSON reply of 200 to
  -- 299.
  pub Call_iff :
      (r : Result (Option Json)) (v : World) → Call r v ↔ (api_fetch env net path o w ≡ (r, v))
  Call_iff r v = (Call-api_fetch r v, λ e. subst (λ p. Call p.0 p.1) e api_fetch-Call)
