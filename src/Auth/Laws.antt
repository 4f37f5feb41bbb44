-- ===== src/Auth/Laws.antt =====
-- What the session holds after each of its operations.
use clever_gate.Prelude.{
  String, true, false, Option, none, some, ◌≡◌, refl, ◌⊎◌, inl, inr, arith, Bool-cases,
}
use clever_gate.Json.{Json, null, get, to_text, is_truthy, value}
use clever_gate.Api.{
  Env, World, Net, Result, ok, err, Failure, get_access_token, get_refresh_token, set_tokens,
}
use clever_gate.Api.Laws.{clear_tokens_access, clear_tokens_refresh}
use clever_gate.Api.Client.{api_get, api_post}
use clever_gate.Auth.{
  Session, has_user, use_me, me_path, token_given, mount, take_me, load_me, store_tokens,
  login_body, use_tokens, login, logout,
}

use_me_fails :
    (env : Env) (r : Result (Option Json)) (w : World)
    → has_user (use_me env r w).user ≡ false
    → ((u : Option Json) × (r ≡ ok u))
      ⊎ (get_access_token env (use_me env r w).world.storage ≡ none)
unfolding use_me
use_me_fails env (ok u) w h = inl (u, refl)
use_me_fails env (err e) w h = inr (clear_tokens_access env w.storage)

use_me_loading :
    (env : Env) (r : Result (Option Json)) (w : World) → (use_me env r w).loading ≡ false
unfolding use_me
use_me_loading env (ok u) w = refl
use_me_loading env (err e) w = refl

use_me-eq :
    (env : Env) (r : Result (Option Json)) (w : World)
    → has_user (use_me env r w).user ≡ true
    → (u : Json) × (r ≡ ok (some u))
      × ((use_me env r w).user ≡ some u)
      × (is_truthy (value u) ≡ true)
unfolding use_me
use_me-eq env (ok none) w h = cc
use_me-eq env (ok (some u)) w h = (u, refl, refl, h)
use_me-eq env (err e) w h = cc

-- Opening the panel without a user always ends with `loading` false. A user is then there only if
-- an access token was stored and `/me` answered with that user.
pub mount_settles :
    (env : Env) (net : Net) (s : Session)
    → s.user ≡ none
    → ((mount env net s).loading ≡ false)
      × ((has_user (mount env net s).user ≡ false)
          ⊎ ((u : Json) × ((mount env net s).user ≡ some u)
              × (token_given (get_access_token env s.world.storage) ≡ true)
              × ((api_get env net me_path s.world).0 ≡ ok (some u))))
unfolding mount
mount_settles env net s h =
    let (r, w) = api_get env net me_path s.world in
    elim (Bool-cases (token_given (get_access_token env s.world.storage))) [
      | inr absent ↦ (ground arith, inl (ground arith))
      | inl given ↦ (
        ground (arith, use_me_loading env r w),
        elim (Bool-cases (has_user (use_me env r w).user)) [
          | inr nobody ↦ inl (ground arith)
          | inl somebody ↦
              let (u, e, held, t) = use_me-eq env r w somebody in inr (u, ground arith, given, e)
        ],
      )
    ]

-- Where an access token is stored and `/me` fails, opening the panel leaves no user and no token.
pub mount_clears :
    (env : Env) (net : Net) (s : Session) (e : Failure)
    → token_given (get_access_token env s.world.storage) ≡ true
    → (api_get env net me_path s.world).0 ≡ err e
    → ((mount env net s).user ≡ none)
      × (get_access_token env (mount env net s).world.storage ≡ none)
      × (get_refresh_token env (mount env net s).world.storage ≡ none)
unfolding mount use_me
mount_clears env net s e given failed =
    let w = (api_get env net me_path s.world).1 in
    (
      ground arith,
      ground (arith, clear_tokens_access env w.storage),
      ground (arith, clear_tokens_refresh env w.storage),
    )

-- Whatever the server answers, logging out leaves no user and no token.
pub logout_clears :
    (env : Env) (net : Net) (s : Session)
    → ((logout env net s).user ≡ none)
      × (get_access_token env (logout env net s).world.storage ≡ none)
      × (get_refresh_token env (logout env net s).world.storage ≡ none)
unfolding logout
logout_clears env net s = (refl, clear_tokens_access env _, clear_tokens_refresh env _)

take_me_fails :
    (r : Result (Option Json)) (w : World) (s : Session) (e : Failure)
    → (take_me r w s).0 ≡ err e
    → (take_me r w s).1.user ≡ s.user
take_me_fails (ok u) w s e h = cc
take_me_fails (err f) w s e h = refl

take_me_succeeds :
    (r : Result (Option Json)) (w : World) (s : Session)
    → (take_me r w s).0 ≡ ok tt
    → (u : Option Json) × (r ≡ ok u) × ((take_me r w s).1.user ≡ u) × ((take_me r w s).1.world ≡ w)
take_me_succeeds (ok u) w s h = (u, refl, refl, refl)
take_me_succeeds (err f) w s h = cc

use_tokens_fails :
    (env : Env) (net : Net) (r : Result (Option Json)) (s : Session) (e : Failure)
    → (use_tokens env net r s).0 ≡ err e
    → (use_tokens env net r s).1.user ≡ s.user
unfolding use_tokens load_me store_tokens
use_tokens_fails env net (err f) s e h = refl
use_tokens_fails env net (ok none) s e h = refl
use_tokens_fails env net (ok (some null)) s e h = refl
use_tokens_fails env net (ok (some d)) s e h = take_me_fails _ _ (store_tokens env d s) e h

-- The world in which a reply's two tokens are stored.
abbrev pub with_pair : Env → Json → World → World
with_pair env d w = record w {
  storage =
      set_tokens env (to_text (get "access_token" d)) (to_text (get "refresh_token" d)) w.storage;
}

-- What a login that returns has done: `d` is the reply to it, and `/me` is asked in the world in which
-- that reply's tokens are stored. The user is the answer, and the world what that call leaves.
pub record IsLoggedIn (env : Env) (net : Net) (r : Result (Option Json)) (s t : Session)
    : Type 0 where
  pub d : Json
  pub replied : r ≡ ok (some d)
  pub me : Option Json
  pub answered : (api_get env net me_path (with_pair env d s.world)).0 ≡ ok me
  pub user_set : t.user ≡ me
  pub left : t.world ≡ (api_get env net me_path (with_pair env d s.world)).1

use_tokens_succeeds :
    (env : Env) (net : Net) (r : Result (Option Json)) (s : Session)
    → (use_tokens env net r s).0 ≡ ok tt
    → IsLoggedIn env net r s (use_tokens env net r s).1
unfolding use_tokens load_me store_tokens
use_tokens_succeeds env net (err f) s h = cc
use_tokens_succeeds env net (ok none) s h = cc
use_tokens_succeeds env net (ok (some null)) s h = cc
use_tokens_succeeds env net (ok (some d)) s h =
    let t = store_tokens env d s in
    let got = api_get env net me_path t.world in
    let (u, answered, same, left) = take_me_succeeds got.0 got.1 t h in
    record { d = d; replied = refl; me = u; answered = answered; user_set = same; left = left }

-- A login that throws does not change who is logged in.
login_fails :
    (env : Env) (net : Net) (username password : String) (totp : Option String) (s : Session)
    (e : Failure)
    → (login env net username password totp s).0 ≡ err e
    → (login env net username password totp s).1.user ≡ s.user
unfolding login
login_fails env net username password totp s e h =
    let posted =
      api_post env net "/api/admin/auth/login" (some (login_body username password totp)) s.world in
    use_tokens_fails env net posted.0 (record s { world = posted.1 }) e h

-- A login that returns has got a JSON value as the reply to its request, and has then called `/me`
-- in the world in which that value's access token and refresh token are the stored ones, each in its
-- place. The user is the answer of that call, and the world is as that call leaves it.
pub login-IsLoggedIn :
    (env : Env) (net : Net) (username password : String) (totp : Option String) (s : Session)
    → (login env net username password totp s).0 ≡ ok tt
    → let (r, w) =
        api_post env net "/api/admin/auth/login"
          (some (login_body username password totp))
          s.world in
      IsLoggedIn env net r (record s { world = w }) (login env net username password totp s).1
unfolding login
login-IsLoggedIn env net username password totp s h =
    let posted =
      api_post env net "/api/admin/auth/login" (some (login_body username password totp)) s.world in
    use_tokens_succeeds env net posted.0 (record s { world = posted.1 }) h
