-- ===== src/Api/Refresh.antt =====
-- The exchanges that `refreshAccessToken` may have with the server, as a relation that does not follow
-- the code: which request is sent, what is stored then, and whether it counts as a success.
use clever_gate.Prelude.{
  String, Bool, true, false, Option, none, some, [], ◌∷◌, ◌++◌, ◌≡◌, refl, ◌≢◌, ◌⊎◌, inl, inr, sym,
  ap, ◌∙◌, subst, arith, truthy, Bool-cases, ℕ,
}
use clever_gate.Json.{Json, Access, throws, undefined, value, get, to_text}
use clever_gate.Api.{
  Env, World, Net, Reply, network_error, response, parsed, unparsable, fetch, is_ok,
  get_refresh_token, set_tokens,
}
use clever_gate.Api.Client.{
  refresh_request, store_pair, use_refresh_reply, refresh_with, refresh_access_token,
}

-- The reply gives no tokens: it is refused or not JSON, or nothing can be read from its value.
abbrev pub GivesNone : Reply → Type 0
GivesNone r =
    (status : ℕ) (d : Json)
    → r ≡ response status (parsed d)
    → (is_ok status ≡ false) ⊎ (get "access_token" d ≡ throws)

-- No refresh token is stored, or an empty one.
abbrev pub HasNone : Option String → Type 0
HasNone t = (token : String) → t ≡ some token → truthy token ≡ false

-- The world after a refresh whose reply has the value `d`.
abbrev pub renewed : Env → String → Json → World → World
renewed env token d w = record {
  storage =
      set_tokens env (to_text (get "access_token" d)) (to_text (get "refresh_token" d)) w.storage;
  sent = w.sent ++ refresh_request env token ∷ [];
}

-- A refresh: its result, and the world after it.
pub data Refresh (env : Env) (net : Net) (w : World) : Bool → World → Type 0 where
  tokenless : HasNone (get_refresh_token env w.storage) → Refresh env net w false w
  denied :
      (token : String)
      → get_refresh_token env w.storage ≡ some token
      → truthy token ≡ true
      → GivesNone (net w.sent (refresh_request env token))
      → Refresh env net w false (record w { sent = w.sent ++ refresh_request env token ∷ [] })
  granted :
      (token : String) (status : ℕ) (d : Json)
      → get_refresh_token env w.storage ≡ some token
      → truthy token ≡ true
      → net w.sent (refresh_request env token) ≡ response status (parsed d)
      → is_ok status ≡ true
      → get "access_token" d ≢ throws
      → Refresh env net w true (renewed env token d w)

Access-cases : (a : Access) → (a ≡ throws) ⊎ (a ≢ throws)
Access-cases throws = inl refl
Access-cases undefined = inr (λ e. cc)
Access-cases (value v) = inr (λ e. cc)

store_pair_stops :
    (env : Env) (d : Json) (w : World)
    → get "access_token" d ≡ throws
    → store_pair env d w ≡ (false, w)
store_pair_stops env d w h = ground arith

store_pair_stores :
    (env : Env) (d : Json) (w : World)
    → get "access_token" d ≢ throws
    → store_pair env d w ≡ (
      true,
      record w {
        storage =
            set_tokens env
              (to_text (get "access_token" d))
              (to_text (get "refresh_token" d))
              w.storage;
      },
    )
store_pair_stores env d w h = ground arith

-- The tokens of an accepted reply that can be read are stored.
pub use_granted :
    (env : Env) (status : ℕ) (d : Json) (w : World)
    → is_ok status ≡ true
    → get "access_token" d ≢ throws
    → use_refresh_reply env (response status (parsed d)) w ≡ (
      true,
      record w {
        storage =
            set_tokens env
              (to_text (get "access_token" d))
              (to_text (get "refresh_token" d))
              w.storage;
      },
    )
unfolding use_refresh_reply
use_granted env status d w accepted reads = rw accepted (store_pair_stores env d w reads)

-- What the client makes of the reply to a refresh.
reply_used :
    (env : Env) (net : Net) (w : World) (token : String) (r : Reply)
    → get_refresh_token env w.storage ≡ some token
    → truthy token ≡ true
    → net w.sent (refresh_request env token) ≡ r
    → let used =
        use_refresh_reply env r (record w { sent = w.sent ++ refresh_request env token ∷ [] }) in
      Refresh env net w used.0 used.1
unfolding use_refresh_reply
reply_used env net w token (network_error m) held full e =
    denied token held full (λ s d f. let g : network_error m ≡ response s (parsed d) = cc in cc)
reply_used env net w token (response status (unparsable m)) held full e =
    denied token held full
      (λ s d f. let g : response status (unparsable m) ≡ response s (parsed d) = cc in cc)
reply_used env net w token (response status (parsed d)) held full e =
    let w1 : World = record w { sent = w.sent ++ refresh_request env token ∷ [] } in
    elim (Bool-cases (is_ok status)) [
      | inr refused ↦
          rw refused
            (denied token held full (λ s v f. let g : status ≡ s = cc in inl (ground arith)))
      | inl accepted ↦ elim (Access-cases (get "access_token" d)) [
        | inl stops ↦ rw accepted (
            subst (λ p. Refresh env net w p.0 p.1) (sym (store_pair_stops env d w1 stops))
              (denied token held full (λ s v f. let g : d ≡ v = cc in inr (ground arith))))
        | inr reads ↦ rw accepted (
            subst (λ p. Refresh env net w p.0 p.1) (sym (store_pair_stores env d w1 reads))
              (granted token status d held full e accepted reads))
      ]
    ]

refresh_with-Refresh :
    (env : Env) (net : Net) (t : Option String) (w : World)
    → get_refresh_token env w.storage ≡ t
    → Refresh env net w (refresh_with env net t w).0 (refresh_with env net t w).1
unfolding fetch
refresh_with-Refresh env net none w held = tokenless (λ token e. cc)
refresh_with-Refresh env net (some t) w held = elim (Bool-cases (truthy t)) [
  | inr empty ↦ rw empty (tokenless (λ token e. let same : t ≡ token = cc in cc))
  | inl full ↦ rw full (reply_used env net w t _ held full refl)
]

pub refresh_access_token-Refresh :
    (env : Env) (net : Net) (w : World)
    → Refresh env net w (refresh_access_token env net w).0 (refresh_access_token env net w).1
unfolding refresh_access_token
refresh_access_token-Refresh env net w = refresh_with-Refresh env net _ w refl

use_none :
    (env : Env) (r : Reply) (w : World) → GivesNone r → use_refresh_reply env r w ≡ (false, w)
unfolding use_refresh_reply
use_none env (network_error m) w h = refl
use_none env (response status (unparsable m)) w h = refl
use_none env (response status (parsed d)) w h = elim (h status d refl) [
  | inl refused ↦ rw refused refl
  | inr stops ↦ ground (arith, store_pair_stops env d w stops)
]

refresh_with_empty :
    (env : Env) (net : Net) (t : Option String) (w : World)
    → HasNone t
    → refresh_with env net t w ≡ (false, w)
refresh_with_empty env net none w h = refl
refresh_with_empty env net (some t) w h = rw (h t refl) refl

refresh_with_token :
    (env : Env) (net : Net) (t : Option String) (token : String) (w : World)
    → t ≡ some token
    → truthy token ≡ true
    → refresh_with env net t w
      ≡ use_refresh_reply env
          (net w.sent (refresh_request env token))
          (record w { sent = w.sent ++ refresh_request env token ∷ [] })
unfolding fetch
refresh_with_token env net none token w e full = cc
refresh_with_token env net (some t) token w e full = let same : t ≡ token = cc in ground arith

-- A refresh has no other result than the relation gives.
pub Refresh-refresh_access_token :
    (env : Env) (net : Net) (w : World) (refreshed : Bool) (v : World)
    → Refresh env net w refreshed v
    → refresh_access_token env net w ≡ (refreshed, v)
unfolding refresh_access_token
Refresh-refresh_access_token env net w refreshed v (tokenless h) =
    refresh_with_empty env net (get_refresh_token env w.storage) w h
Refresh-refresh_access_token env net w refreshed v (denied token held full h) =
    refresh_with_token env net (get_refresh_token env w.storage) token w held full
    ∙ use_none env (net w.sent (refresh_request env token)) _ h
Refresh-refresh_access_token env net w refreshed v
      (granted token status d held full e accepted reads) =
    let w1 : World = record w { sent = w.sent ++ refresh_request env token ∷ [] } in
    refresh_with_token env net (get_refresh_token env w.storage) token w held full
    ∙ ap (λ r. use_refresh_reply env r w1) e
    ∙ use_granted env status d w1 accepted reads
