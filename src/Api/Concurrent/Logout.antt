-- ===== src/Api/Concurrent/Logout.antt =====
-- What becomes of a logout while calls are under way.
use clever_gate.Runs.{All, run-keeps_while}
use clever_gate.Prelude.{
  ℕ, zero, suc, String, Bool, true, false, Option, none, some, List, [], ◌∷◌, ◌++◌, ◌≡◌, refl, ◌≢◌,
  sym, ap, ◌∙◌, subst, arith, Bool-cases, inl, inr,
}
use clever_gate.Json.{Json, throws, get, to_text}
use clever_gate.Api.{
  Env, Location, World, Storage, Reply, response, parsed, is_ok, get_access_token,
  get_refresh_token, set_tokens, clear_tokens,
}
use clever_gate.Api.Client.{is_unauthorized}
use clever_gate.Api.Refresh.{use_granted}
use clever_gate.Api.Laws.{clear_tokens_access, clear_tokens_refresh}
use clever_gate.Api.Concurrent.{
  Phase, asking, refreshing, repeating, settled, Call, Client, Event, begins, replies, logs_in,
  logs_out, ask_refresh, after_refresh, resume, reply_to, step, run,
}

abbrev pub is_refreshing : Phase → Bool
is_refreshing (refreshing first) = true
is_refreshing p = false

abbrev pub NoneRefreshing : List Call → Type 0
NoneRefreshing [] = Unit
NoneRefreshing (c ∷ cs) = (is_refreshing c.phase ≡ false) × NoneRefreshing cs

abbrev pub is_no_login : Event → Bool
is_no_login (logs_in access refresh) = false
is_no_login e = true

NoneRefreshing-snoc :
    (cs : List Call) (c : Call)
    → NoneRefreshing cs
    → is_refreshing c.phase ≡ false
    → NoneRefreshing (cs ++ c ∷ [])
NoneRefreshing-snoc [] c h n = (n, tt)
NoneRefreshing-snoc (d ∷ cs) c (h, hs) n = (h, NoneRefreshing-snoc cs c hs n)

module _ (env : Env) where
  -- No token is stored.
  abbrev pub IsCleared : Storage → Type 0
  IsCleared s = (get_access_token env s ≡ none) × (get_refresh_token env s ≡ none)

  -- Without a refresh token a reply of 401 ends the call.
  ask_refresh-none :
      (t : Option String) (r : Reply) (c : Call) (w : World)
      → t ≡ none
      → let (d, v) = ask_refresh env t r c w in
        (is_refreshing d.phase ≡ false) × (v.storage ≡ w.storage)
  ask_refresh-none none r c w h = (refl, refl)
  ask_refresh-none (some t) r c w h = cc

  resume_cleared :
      (p : Phase) (r : Reply) (c : Call) (w : World)
      → c.phase ≡ p
      → is_refreshing p ≡ false
      → get_refresh_token env w.storage ≡ none
      → let (d, v) = resume env p r c w in (is_refreshing d.phase ≡ false) × (v.storage ≡ w.storage)
  unfolding resume
  resume_cleared asking r c w e n h = elim (Bool-cases (is_unauthorized r)) [
    | inl refused ↦ rw refused (ask_refresh-none (get_refresh_token env w.storage) r c w h)
    | inr other ↦ rw other (refl, refl)
  ]
  resume_cleared (refreshing first) r c w e n h = cc
  resume_cleared repeating r c w e n h = (refl, refl)
  resume_cleared (settled outcome) r c w e n h = rw e (refl, refl)

  reply_to_cleared :
      (n : ℕ) (r : Reply) (cs : List Call) (w : World)
      → NoneRefreshing cs
      → get_refresh_token env w.storage ≡ none
      → let (ds, v) = reply_to env n r cs w in NoneRefreshing ds × (v.storage ≡ w.storage)
  unfolding reply_to
  reply_to_cleared n r [] w hs h = (tt, refl)
  reply_to_cleared zero r (c ∷ cs) w (k, hs) h =
      let (still, same) = resume_cleared c.phase r c w refl k h in ((still, hs), same)
  reply_to_cleared (suc n) r (c ∷ cs) w (k, hs) h =
      let (still, same) = reply_to_cleared n r cs w hs h in ((k, still), same)

  abbrev IsOut : Client → Type 0
  IsOut s = NoneRefreshing s.calls × IsCleared s.world.storage

  clear_tokens-IsCleared : (s : Storage) → IsCleared (clear_tokens env s)
  clear_tokens-IsCleared s = (clear_tokens_access env s, clear_tokens_refresh env s)

  step-IsOut : (s : Client) (e : Event) → is_no_login e ≡ true → IsOut s → IsOut (step env s e)
  unfolding step
  step-IsOut s (begins path o) n (hs, out) = (NoneRefreshing-snoc s.calls _ hs refl, out)
  step-IsOut s (replies m r) n (hs, (a, h)) =
      let (still, same) = reply_to_cleared m r s.calls s.world hs h in
      (still, subst IsCleared (sym same) (a, h))
  step-IsOut s (logs_in access refresh) n h = cc
  step-IsOut s logs_out n (hs, out) = (hs, clear_tokens-IsCleared s.world.storage)

  -- After a logout during which no refresh is under way, no token is stored until the next login,
  -- whichever calls are still answered or begun.
  pub run-IsCleared :
      (s : Client) (es : List Event)
      → NoneRefreshing s.calls
      → All (step env) (λ e. is_no_login e ≡ true) es
      → IsCleared (run env (step env s logs_out) es).world.storage
  unfolding step
  run-IsCleared s es hs quiet =
      (run-keeps_while (step env) (λ e. is_no_login e ≡ true) IsOut step-IsOut (step env s logs_out)
        es quiet (hs, clear_tokens-IsCleared s.world.storage)).1

  -- In a page, a refresh that is under way at the logout and is granted afterwards stores its tokens.
  late_refresh :
      (s : Client) (c : Call) (first : Reply) (l : Location) (status : ℕ) (d : Json)
      → env.window ≡ some l
      → s.calls ≡ record c { phase = refreshing first } ∷ []
      → is_ok status ≡ true
      → get "access_token" d ≢ throws
      → (step env (step env s logs_out) (replies 0 (response status (parsed d)))).world.storage
        ≡ record {
          access = some (to_text (get "access_token" d));
          refresh = some (to_text (get "refresh_token" d));
        }
  unfolding step reply_to resume set_tokens
  late_refresh s c first l status d page alone accepted reads =
      let cleared : World = record s.world { storage = clear_tokens env s.world.storage } in
      rw alone (
        ap (λ p. (after_refresh env p first (record c { phase = refreshing first })).1.storage)
          (use_granted env status d cleared accepted reads)
        ∙ ground arith)
