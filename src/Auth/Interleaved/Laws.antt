-- ===== src/Auth/Interleaved/Laws.antt =====
-- Whether the user of the session has a token, when its calls run into each other.
use clever_gate.Runs.{Along, run-keeps_along}
use clever_gate.Prelude.{
  String, Bool, true, false, Option, none, some, List, ◌≡◌, refl, ◌≢◌, arith, nat_eq, if◌then◌else◌,
}
use clever_gate.Json.{Json, null}
use clever_gate.Api.{Env, Location, Storage, Result, ok, err, Failure, get_access_token, set_tokens}
use clever_gate.Api.Laws.{clear_tokens_access}
use clever_gate.Auth.{has_user, token_given}
use clever_gate.Auth.Interleaved.{
  Provider, Event, opening_answered, login_called, login_answered, me_answered, logout_called,
  logout_answered, refreshed, start, opened, entered, read, left, step, run,
}

module _ (env : Env) where
  -- An access token is stored.
  abbrev pub IsHeld : Storage → Type 0
  IsHeld s = (t : String) × (get_access_token env s ≡ some t)

  -- No login reads its user while the opening or a logout ends, and no logout ends during the opening.
  abbrev pub IsCalm : Provider → Event → Type 0
  IsCalm s (opening_answered r) = s.reading ≡ 0
  IsCalm s logout_answered = (s.reading ≡ 0) × (s.opening ≡ false)
  IsCalm s e = Unit

  -- A token is stored for the user, for a login that reads its user, and for the opening.
  abbrev IsBacked : Provider → Type 0
  IsBacked s =
      (has_user s.user ≡ true → IsHeld s.storage)
      × (s.reading ≢ 0 → IsHeld s.storage)
      × (s.opening ≡ true → IsHeld s.storage)

  either :
      (b : Bool) (s t : Provider)
      → (b ≡ true → IsBacked s)
      → (b ≡ false → IsBacked t)
      → IsBacked (if b then s else t)
  either true s t p q = p refl
  either false s t p q = q refl

  set_tokens-IsHeld :
      (l : Location) (a r : String) (s : Storage)
      → env.window ≡ some l
      → IsHeld (set_tokens env a r s)
  unfolding set_tokens get_access_token
  set_tokens-IsHeld l a r s page = (a, ground arith)

  given-IsHeld : (t : Option String) → token_given t ≡ true → (a : String) × (t ≡ some a)
  given-IsHeld none h = cc
  given-IsHeld (some a) h = (a, refl)

  start-IsBacked : (s : Storage) → IsBacked (start env s)
  unfolding start
  start-IsBacked s = (λ h. cc, λ h. absurd (h refl), λ h. given-IsHeld (get_access_token env s) h)

  opened-IsBacked :
      (r : Result (Option Json)) (s : Provider)
      → s.opening ≡ true
      → s.reading ≡ 0
      → IsBacked s
      → IsBacked (opened env r s)
  opened-IsBacked (ok u) s o n (b, c, d) = (λ h. d o, c, λ h. cc)
  opened-IsBacked (err e) s o n (b, c, d) = (λ h. cc, λ h. absurd (h n), λ h. cc)

  entered-IsBacked :
      (l : Location) (r : Result (Option Json)) (s : Provider)
      → env.window ≡ some l
      → IsBacked s
      → IsBacked (entered env r s)
  entered-IsBacked l (err e) s page h = h
  entered-IsBacked l (ok none) s page h = h
  entered-IsBacked l (ok (some null)) s page h = h
  entered-IsBacked l (ok (some d)) s page h =
      let held = set_tokens-IsHeld l _ _ s.storage page in (λ g. held, λ g. held, λ g. held)

  read-IsBacked :
      (r : Result (Option Json)) (s : Provider)
      → s.reading ≢ 0
      → IsBacked s
      → IsBacked (read env r s)
  read-IsBacked (err e) s n (b, c, d) = (b, λ h. c n, d)
  read-IsBacked (ok u) s n (b, c, d) = (λ h. c n, λ h. c n, d)

  step-IsBacked :
      (l : Location)
      → env.window ≡ some l
      → (s : Provider) (e : Event) → IsCalm s e
      → IsBacked s
      → IsBacked (step env s e)
  unfolding step
  step-IsBacked l page s (opening_answered r) n h =
      either s.opening (opened env r s) s (λ o. opened-IsBacked r s o n h) (λ o. h)
  step-IsBacked l page s login_called n h = h
  step-IsBacked l page s (login_answered r) n h =
      either (nat_eq s.entering 0) s (entered env r s) (λ o. h)
        (λ due. entered-IsBacked l r s page h)
  step-IsBacked l page s (me_answered r) n h =
      either (nat_eq s.reading 0) s (read env r s) (λ o. h)
        (λ due. read-IsBacked r s (ground arith) h)
  step-IsBacked l page s logout_called n h = h
  step-IsBacked l page s logout_answered (n, o) h =
      either (nat_eq s.leaving 0) s (left env s) (λ k. h)
        (λ due. (λ g. cc, λ g. absurd (g n), λ g. cc))
  step-IsBacked l page s (refreshed a r) n h =
      let held = set_tokens-IsHeld l a r s.storage page in (λ g. held, λ g. held, λ g. held)

  -- In a page: whatever refreshes, logins and logouts run into each other, an access token is stored
  -- whenever there is a user, provided that no login waits for its user while the opening or a logout
  -- ends, and that no logout ends during the opening.
  pub run-IsHeld :
      (l : Location) (storage : Storage) (es : List Event)
      → env.window ≡ some l
      → Along (step env) IsCalm (start env storage) es
      → has_user (run env (start env storage) es).user ≡ true
      → IsHeld (run env (start env storage) es).storage
  run-IsHeld l storage es page calm =
      (run-keeps_along (step env) IsCalm IsBacked (step-IsBacked l page) (start env storage) es calm
        (start-IsBacked storage)).0

  -- The opening fails while a login waits for its user, who then has no token.
  overtaken :
      (s : Provider) (e : Failure) (u : Json)
      → s.opening ≡ true
      → s.reading ≡ 1
      → let t = step env (step env s (opening_answered (err e))) (me_answered (ok (some u))) in
        (t.user ≡ some u) × (get_access_token env t.storage ≡ none)
  unfolding step
  overtaken s e u o n = rw (o, n) (refl, clear_tokens_access env s.storage)
