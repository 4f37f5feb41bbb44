-- ===== src/Auth/Interleaved.antt =====
-- frontend/lib/auth.tsx with its calls cut at their `await`s: the effect of the opening, logins and
-- logouts may be under way at the same time. How the API client's calls end is given by the events.
pub mod Laws
use clever_gate.Runs
use clever_gate.Prelude.{
  ℕ, suc, ◌-◌, String, Bool, true, false, Option, none, some, List, nat_eq, if◌then◌else◌,
}
use clever_gate.Json.{Json, null, get, to_text}
use clever_gate.Api.{Env, Storage, Result, ok, err, get_access_token, set_tokens, clear_tokens}
use clever_gate.Auth.{token_given}

-- `opening` says whether the effect waits for `/me`; `entering` logins wait for their first answer,
-- `reading` logins for `/me`, and `leaving` logouts for theirs.
pub record Provider : Type 0 where
  pub user : Option Json
  pub loading : Bool
  pub storage : Storage
  pub opening : Bool
  pub entering : ℕ
  pub reading : ℕ
  pub leaving : ℕ

-- A call is made or answered, or the API client has refreshed the tokens for one of its calls.
pub data Event : Type 0 where
  opening_answered : Result (Option Json) → Event
  login_called : Event
  login_answered : Result (Option Json) → Event
  me_answered : Result (Option Json) → Event
  logout_called : Event
  logout_answered : Event
  refreshed : (access refresh : String) → Event

module _ (env : Env) where
  -- The effect up to its `await`.
  unfoldable pub start : Storage → Provider
  start storage =
      let given = token_given (get_access_token env storage) in
      record {
        user = none;
        loading = given;
        storage = storage;
        opening = given;
        entering = 0;
        reading = 0;
        leaving = 0;
      }

  -- `.then(setUser).catch(…).finally(…)`
  abbrev pub opened : Result (Option Json) → Provider → Provider
  opened (ok u) s = record s { user = u; loading = false; opening = false }
  opened (err e) s = record s {
    user = none;
    loading = false;
    storage = clear_tokens env s.storage;
    opening = false;
  }

  -- `login` after its first `await`.
  abbrev pub entered : Result (Option Json) → Provider → Provider
  entered (err e) s = record s { entering = s.entering - 1 }
  entered (ok none) s = record s { entering = s.entering - 1 }
  entered (ok (some null)) s = record s { entering = s.entering - 1 }
  entered (ok (some d)) s = record s {
    storage =
        set_tokens env (to_text (get "access_token" d)) (to_text (get "refresh_token" d)) s.storage;
    entering = s.entering - 1;
    reading = suc s.reading;
  }

  -- `login` after its second `await`.
  abbrev pub read : Result (Option Json) → Provider → Provider
  read (err e) s = record s { reading = s.reading - 1 }
  read (ok u) s = record s { user = u; reading = s.reading - 1 }

  -- `logout` after its `await`, whatever the answer is.
  abbrev pub left : Provider → Provider
  left s = record s { user = none; storage = clear_tokens env s.storage; leaving = s.leaving - 1 }

  unfoldable pub step : Provider → Event → Provider
  step s (opening_answered r) = if s.opening then opened r s else s
  step s login_called = record s { entering = suc s.entering }
  step s (login_answered r) = if nat_eq s.entering 0 then s else entered r s
  step s (me_answered r) = if nat_eq s.reading 0 then s else read r s
  step s logout_called = record s { leaving = suc s.leaving }
  step s logout_answered = if nat_eq s.leaving 0 then s else left s
  step s (refreshed access refresh) = record s { storage = set_tokens env access refresh s.storage }

  abbrev pub run : Provider → List Event → Provider
  run = Runs.run step
