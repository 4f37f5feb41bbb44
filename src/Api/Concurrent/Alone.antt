-- ===== src/Api/Concurrent/Alone.antt =====
-- A call that runs alone does what `api_fetch` says.
use clever_gate.Prelude.{
  String, Bool, true, false, Option, none, some, List, [], ◌∷◌, ◌++◌, ◌≡◌, refl, ap, ◌∙◌,
  Bool-cases, inl, inr, truthy, if◌then◌else◌,
}
use clever_gate.Api.{Env, Net, World, Request, Reply, fetch, get_access_token, get_refresh_token}
use clever_gate.Api.Client.{
  Options, refresh_request, use_refresh_reply, refresh_with, refresh_access_token, request_of,
  authorize, headers_of, first_request, is_unauthorized, retry, api_fetch,
}
use clever_gate.Api.Concurrent.{
  asking, refreshing, settled, Call, Client, begins, replies, send, settle, ask_refresh,
  after_refresh, resume, reply_to, step, idle,
}

-- The last request that was sent, and those before it.
unfoldable pub latest : List Request → Option (List Request × Request)
latest [] = none
latest (r ∷ rs) = some (elim (latest rs) [ none ↦ ([], r) | some (before, x) ↦ (r ∷ before, x) ])

latest-snoc : (rs : List Request) (r : Request) → latest (rs ++ r ∷ []) ≡ some (rs, r)
unfolding latest
latest-snoc [] r = refl
latest-snoc (x ∷ rs) r = rw (latest-snoc rs r) refl

module _ (env : Env) (net : Net) where
  -- The network answers the last request, for the first call.
  abbrev pub answer_with : Option (List Request × Request) → Client → Client
  answer_with none s = s
  answer_with (some (before, r)) s = step env s (replies 0 (net before r))

  unfoldable pub answer : Client → Client
  answer s = answer_with (latest s.world.sent) s

  abbrev one : Call × World → Client
  one (c, w) = record { world = w; calls = c ∷ [] }

  answer-one :
      (c : Call) (before : List Request) (r : Request) (w : World)
      → w.sent ≡ before ++ r ∷ []
      → answer (one (c, w)) ≡ one (resume env c.phase (net before r) c w)
  unfolding answer step reply_to
  answer-one c before r w e =
      ap (λ q. answer_with q (one (c, w))) (ap latest e ∙ latest-snoc before r)

  answer-settled :
      (r : Reply) (c : Call) (w : World) → answer (one (settle r c, w)) ≡ one (settle r c, w)
  unfolding answer step reply_to resume
  answer-settled r c w = stays (latest w.sent)
    where
      stays :
          (q : Option (List Request × Request))
          → answer_with q (one (settle r c, w)) ≡ one (settle r c, w)
      stays none = refl
      stays (some (before, x)) = refl

  answer-settled_twice :
      (r : Reply) (c : Call) (w : World)
      → answer (answer (one (settle r c, w))) ≡ one (settle r c, w)
  answer-settled_twice r c w = ap answer (answer-settled r c w) ∙ answer-settled r c w

  -- A call of those headers that was settled by a reply.
  abbrev done : Call → Reply × World → Client
  done c (last, v) = one (settle last c, v)

  repeated :
      (p : Bool × World) (first : Reply) (c : Call)
      → let again =
          request_of env c.path c.options
            (authorize (get_access_token env p.1.storage) c.headers) in
        answer (one (after_refresh env p first c))
        ≡ done c (if p.0 then fetch net again p.1 else (first, p.1))
  unfolding fetch resume
  repeated (false, v) first c = answer-settled first c v
  repeated (true, v) first c = answer-one _ v.sent _ (send _ v) refl

  refused :
      (t : Option String) (first : Reply) (c : Call) (w : World)
      → let p = refresh_with env net t w in
        let again =
          request_of env c.path c.options
            (authorize (get_access_token env p.1.storage) c.headers) in
        answer (answer (one (ask_refresh env t first c w)))
        ≡ done c (if p.0 then fetch net again p.1 else (first, p.1))
  unfolding fetch resume
  refused none first c w = answer-settled_twice first c w
  refused (some t) first c w = elim (Bool-cases (truthy t)) [
    | inr empty ↦ rw empty (answer-settled_twice first c w)
    | inl full ↦
        let asked = send (refresh_request env t) w in
        let waits : Call = record c { phase = refreshing first } in
        rw full (
          ap answer (answer-one waits w.sent (refresh_request env t) asked refl)
          ∙ repeated (use_refresh_reply env (net w.sent (refresh_request env t)) asked) first waits)
  ]

  -- A call that runs alone over a network that answers each request, and is answered three times,
  -- has the outcome of `api_fetch` and leaves its world.
  pub answer-api_fetch :
      (path : String) (o : Options) (w : World)
      → answer (answer (answer (step env (idle w) (begins path o)))) ≡ record {
        world = (api_fetch env net path o w).1;
        calls =
            record {
              path = path;
              options = o;
              headers = headers_of env o w;
              phase = settled (api_fetch env net path o w).0;
            }
            ∷ [];
      }
  unfolding step api_fetch retry fetch refresh_access_token resume
  answer-api_fetch path o w =
      let own = first_request env path o w in
      let c : Call = record {
        path = path;
        options = o;
        headers = headers_of env o w;
        phase = asking;
      } in
      let first = net w.sent own in
      ap (λ s. answer (answer s)) (answer-one c w.sent own (send own w) refl)
      ∙ elim (Bool-cases (is_unauthorized first)) [
        | inr other ↦ rw other (answer-settled_twice first c (send own w))
        | inl unauthorized ↦
            rw unauthorized (refused (get_refresh_token env w.storage) first c (send own w))
      ]
