-- ===== src/Api/Concurrent/Tokens.antt =====
-- Where the stored tokens come from when calls run at the same time.
use clever_gate.Runs
use clever_gate.Prelude.{
  ℕ, zero, suc, String, Bool, true, false, Option, none, some, List, [], ◌∷◌, ◌≡◌, refl, ◌⊎◌, inl,
  inr, ◌∙◌, sym, ap, subst, Option-cases, arith, Bool-cases,
}
use clever_gate.Json.{Json, get, to_text}
use clever_gate.Api.{
  Env, World, Storage, Reply, response, parsed, is_ok, get_refresh_token, set_tokens, clear_tokens,
}
use clever_gate.Api.Laws.{use_refresh_reply_fails}
use clever_gate.Api.Outcomes.{use_refresh_reply_succeeds}
use clever_gate.Api.Client.{use_refresh_reply, is_unauthorized}
use clever_gate.Api.Concurrent.{
  Phase, asking, refreshing, repeating, settled, Call, Client, Event, begins, replies, logs_in,
  logs_out, ask_refresh, after_refresh, resume, reply_to, step, run,
}

-- The pair of tokens that a reply grants.
abbrev pub Grants : Reply → Storage → Type 0
Grants r s =
    (status : ℕ) × (d : Json) × (r ≡ response status (parsed d))
    × (is_ok status ≡ true)
    × (s ≡ record {
      access = some (to_text (get "access_token" d));
      refresh = some (to_text (get "refresh_token" d));
    })

-- The call waits for the reply to a refresh.
abbrev pub is_refreshing : Phase → Bool
is_refreshing asking = false
is_refreshing (refreshing first) = true
is_refreshing repeating = false
is_refreshing (settled outcome) = false

-- Whether the n-th call does.
abbrev pub refreshes : ℕ → List Call → Bool
refreshes n [] = false
refreshes zero (c ∷ cs) = is_refreshing c.phase
refreshes (suc n) (c ∷ cs) = refreshes n cs

-- The tokens that an event gives where these calls are under way.
abbrev pub Gives : List Call → Event → Storage → Type 0
Gives cs (begins path o) s = ⊥
Gives cs (replies n r) s = (refreshes n cs ≡ true) × Grants r s
Gives cs (logs_in access refresh) s = s ≡ record { access = some access; refresh = some refresh }
Gives cs logs_out s = s ≡ record { access = none; refresh = none }

module _ (env : Env) where
  -- One of the events gives these tokens when it comes.
  abbrev pub OneGives : Client → List Event → Storage → Type 0
  OneGives c [] s = ⊥
  OneGives c (e ∷ es) s = Gives c.calls e s ⊎ OneGives (step env c e) es s

  set_tokens-cases :
      (a r : String) (s : Storage)
      → (set_tokens env a r s ≡ s)
        ⊎ (set_tokens env a r s ≡ record { access = some a; refresh = some r })
  unfolding set_tokens
  set_tokens-cases a r s = elim (Option-cases env.window) [
    | inl server ↦ inl (ground arith)
    | inr (w, page) ↦ inr (ground arith)
  ]

  clear_tokens-cases :
      (s : Storage)
      → (clear_tokens env s ≡ s) ⊎ (clear_tokens env s ≡ record { access = none; refresh = none })
  unfolding clear_tokens
  clear_tokens-cases s = elim (Option-cases env.window) [
    | inl server ↦ inl (ground arith)
    | inr (w, page) ↦ inr (ground arith)
  ]

  use_refresh_reply-Grants :
      (r : Reply) (w : World)
      → let v = (use_refresh_reply env r w).1 in (v.storage ≡ w.storage) ⊎ Grants r v.storage
  use_refresh_reply-Grants r w = elim (Bool-cases (use_refresh_reply env r w).0) [
    | inr fails ↦ inl (ap (λ v. v.storage) (use_refresh_reply_fails env r w fails))
    | inl succeeds ↦
        let (status, d, replied, accepted, sent, stored) =
          use_refresh_reply_succeeds env r w succeeds in
        elim (set_tokens-cases (to_text (get "access_token" d)) (to_text (get "refresh_token" d))
          w.storage) [
            | inl kept ↦ inl (stored ∙ kept)
            | inr given ↦ inr (status, d, replied, accepted, stored ∙ given)
          ]
  ]

  after_refresh-storage :
      (p : Bool × World) (first : Reply) (c : Call)
      → (after_refresh env p first c).1.storage ≡ p.1.storage
  after_refresh-storage (true, w) first c = refl
  after_refresh-storage (false, w) first c = refl

  ask_refresh-storage :
      (t : Option String) (first : Reply) (c : Call) (w : World)
      → (ask_refresh env t first c w).1.storage ≡ w.storage
  ask_refresh-storage none first c w = refl
  ask_refresh-storage (some t) first c w = ground arith

  resume-Grants :
      (p : Phase) (r : Reply) (c : Call) (w : World)
      → let v = (resume env p r c w).1 in
        (v.storage ≡ w.storage) ⊎ ((is_refreshing p ≡ true) × Grants r v.storage)
  unfolding resume
  resume-Grants asking r c w = elim (Bool-cases (is_unauthorized r)) [
    | inr other ↦ rw other (inl refl)
    | inl refused ↦ rw refused (inl (ask_refresh-storage (get_refresh_token env w.storage) r c w))
  ]
  resume-Grants (refreshing first) r c w =
      let same = after_refresh-storage (use_refresh_reply env r w) first c in
      elim (use_refresh_reply-Grants r w) [
        | inl kept ↦ inl (same ∙ kept)
        | inr granted ↦ inr (refl, subst (Grants r) (sym same) granted)
      ]
  resume-Grants repeating r c w = inl refl
  resume-Grants (settled outcome) r c w = inl refl

  reply_to-Grants :
      (n : ℕ) (r : Reply) (cs : List Call) (w : World)
      → let v = (reply_to env n r cs w).1 in
        (v.storage ≡ w.storage) ⊎ ((refreshes n cs ≡ true) × Grants r v.storage)
  unfolding reply_to
  reply_to-Grants n r [] w = inl refl
  reply_to-Grants zero r (c ∷ cs) w = resume-Grants c.phase r c w
  reply_to-Grants (suc n) r (c ∷ cs) w = reply_to-Grants n r cs w

  step-Gives :
      (s : Client) (e : Event)
      → let v = (step env s e).world in (v.storage ≡ s.world.storage) ⊎ Gives s.calls e v.storage
  unfolding step
  step-Gives s (begins path o) = inl refl
  step-Gives s (replies n r) = reply_to-Grants n r s.calls s.world
  step-Gives s (logs_in access refresh) = set_tokens-cases access refresh s.world.storage
  step-Gives s logs_out = clear_tokens-cases s.world.storage

  -- However calls, logins and logouts run into each other, the stored tokens are the pair that was
  -- stored at first, or the pair that one event gave: that of one login, that of one reply of 200 to
  -- 299 for which a call waited that had asked for a refresh, or none after a logout; never one token
  -- of each.
  pub run-OneGives :
      (s : Client) (es : List Event)
      → let v = (run env s es).world in (v.storage ≡ s.world.storage) ⊎ OneGives s es v.storage
  unfolding Runs.run
  run-OneGives s [] = inl refl
  run-OneGives s (e ∷ es) = elim (run-OneGives (step env s e) es) [
    | inr later ↦ inr (inr later)
    | inl kept ↦ elim (step-Gives s e) [
      | inl before ↦ inl (kept ∙ before)
      | inr now ↦ inr (inl (subst (Gives s.calls e) (sym kept) now))
    ]
  ]
