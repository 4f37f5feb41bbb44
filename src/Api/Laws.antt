-- ===== src/Api/Laws.antt =====
-- What a call of the API client does to the network, the storage and its caller.
use clever_gate.Prelude.{
  ◌+◌, ◌≤◌, String, true, false, Option, none, some, List, [], ◌∷◌, ◌++◌, ◌≡◌, refl, arith, length,
  length-append,
}
use clever_gate.Api.{
  Env, World, Storage, Net, Reply, network_error, response, parsed, unparsable, fetch,
  get_access_token, get_refresh_token, clear_tokens,
}
use clever_gate.Api.Client.{
  Options, refresh_request, use_refresh_reply, refresh_with, refresh_access_token, authorize,
  request_of, headers_of, first_request, finish, is_unauthorized, retry, api_fetch,
}

pub clear_tokens_access :
    (env : Env) (s : Storage) → get_access_token env (clear_tokens env s) ≡ none
unfolding get_access_token clear_tokens
clear_tokens_access env s = ground arith

pub clear_tokens_refresh :
    (env : Env) (s : Storage) → get_refresh_token env (clear_tokens env s) ≡ none
unfolding get_refresh_token clear_tokens
clear_tokens_refresh env s = ground arith

-- A reply other than 401 ends the call: one request is sent, and the storage stays.
api_fetch_direct :
    (env : Env) (net : Net) (path : String) (o : Options) (w : World)
    → is_unauthorized (net w.sent (first_request env path o w)) ≡ false
    → api_fetch env net path o w ≡ (
      finish (net w.sent (first_request env path o w)),
      record w { sent = w.sent ++ first_request env path o w ∷ [] },
    )
unfolding api_fetch fetch
api_fetch_direct env net path o w h = rw h

pub use_refresh_reply_sent :
    (env : Env) (r : Reply) (w : World) → (use_refresh_reply env r w).1.sent ≡ w.sent
unfolding use_refresh_reply
use_refresh_reply_sent env (network_error m) w = refl
use_refresh_reply_sent env (response status (parsed d)) w = ground arith
use_refresh_reply_sent env (response status (unparsable m)) w = refl

pub use_refresh_reply_fails :
    (env : Env) (r : Reply) (w : World)
    → (use_refresh_reply env r w).0 ≡ false
    → (use_refresh_reply env r w).1 ≡ w
unfolding use_refresh_reply
use_refresh_reply_fails env (network_error m) w h = refl
use_refresh_reply_fails env (response status (parsed d)) w h = ground arith
use_refresh_reply_fails env (response status (unparsable m)) w h = refl

refresh_with_sent :
    (env : Env) (net : Net) (t : Option String) (w : World)
    → length (refresh_with env net t w).1.sent ≤ length w.sent + 1
unfolding fetch
refresh_with_sent env net none w = omega arith
refresh_with_sent env net (some t) w =
    let r = refresh_request env t in
    let w' : World = record w { sent = w.sent ++ r ∷ [] } in
    ground (arith, length-append w.sent (r ∷ []), use_refresh_reply_sent env (net w.sent r) w')

refresh_with_fails :
    (env : Env) (net : Net) (t : Option String) (w : World)
    → (refresh_with env net t w).0 ≡ false
    → (refresh_with env net t w).1.storage ≡ w.storage
unfolding fetch
refresh_with_fails env net none w h = refl
refresh_with_fails env net (some t) w h =
    let r = refresh_request env t in
    let w' : World = record w { sent = w.sent ++ r ∷ [] } in
    ground (arith, use_refresh_reply_fails env (net w.sent r) w')

refresh_sent :
    (env : Env) (net : Net) (w : World)
    → length (refresh_access_token env net w).1.sent ≤ length w.sent + 1
unfolding refresh_access_token
refresh_sent env net w = refresh_with_sent env net (get_refresh_token env w.storage) w

-- A refresh that fails leaves the stored tokens as they were.
refresh_fails :
    (env : Env) (net : Net) (w : World)
    → (refresh_access_token env net w).0 ≡ false
    → (refresh_access_token env net w).1.storage ≡ w.storage
unfolding refresh_access_token
refresh_fails env net w h = refresh_with_fails env net (get_refresh_token env w.storage) w h

module _ (env : Env) (net : Net) (path : String) (o : Options) where
  retry_sent :
      (hs : List (String × String)) (first : Reply) (w : World)
      → length (retry env net path o hs first w).1.sent ≤ length w.sent + 2
  unfolding retry fetch
  retry_sent hs first w =
      let w' = (refresh_access_token env net w).1 in
      let again = request_of env path o (authorize (get_access_token env w'.storage) hs) in
      ground (arith, refresh_sent env net w, length-append w'.sent (again ∷ []))

  -- A call sends at most three requests: its own, one refresh, and its own once more.
  api_fetch_sent_le : (w : World) → length (api_fetch env net path o w).1.sent ≤ length w.sent + 3
  unfolding api_fetch fetch
  api_fetch_sent_le w =
      let r = first_request env path o w in
      let w1 : World = record w { sent = w.sent ++ r ∷ [] } in
      ground
        (arith, length-append w.sent (r ∷ []), retry_sent (headers_of env o w) (net w.sent r) w1)

  -- A reply of 401 and a refresh that fails: the outcome is that of this reply, and the stored
  -- tokens stay.
  api_fetch_unrefreshed :
      (w : World)
      → is_unauthorized (net w.sent (first_request env path o w)) ≡ true
      → (refresh_access_token env net
          (record w { sent = w.sent ++ first_request env path o w ∷ [] })).0
        ≡ false
      → (api_fetch env net path o w).0 ≡ finish (net w.sent (first_request env path o w))
        × ((api_fetch env net path o w).1.storage ≡ w.storage)
  unfolding api_fetch fetch retry
  api_fetch_unrefreshed w h f =
      let w1 : World = record w { sent = w.sent ++ first_request env path o w ∷ [] } in
      rw (h, f) (refl, refresh_fails env net w1 f)

  -- A reply of 401 and a refresh that succeeds: the outcome is that of the same request, sent
  -- again with the token that the refresh stored.
  api_fetch_refreshed :
      (w : World) (w2 : World)
      → is_unauthorized (net w.sent (first_request env path o w)) ≡ true
      → refresh_access_token env net (record w { sent = w.sent ++ first_request env path o w ∷ [] })
        ≡ (true, w2)
      → let again =
          request_of env path o
            (authorize (get_access_token env w2.storage) (headers_of env o w)) in
        api_fetch env net path o w
        ≡ (finish (net w2.sent again), record w2 { sent = w2.sent ++ again ∷ [] })
  unfolding api_fetch fetch retry
  api_fetch_refreshed w w2 h f = rw (h, f)
