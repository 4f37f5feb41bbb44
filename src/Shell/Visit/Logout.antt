-- ===== src/Shell/Visit/Logout.antt =====
-- A visitor who has logged out stays out until the next answer that the session waits for.
use clever_gate.Prelude.{Bool, true, false, none, ◌≡◌, ◌≢◌, ◌⊎◌}
use clever_gate.Json.{Json}
use clever_gate.Api.{Env, get_access_token, get_refresh_token}
use clever_gate.Auth.Interleaved
use clever_gate.Auth.Interleaved.{Provider}
use clever_gate.Shell.Visit.{
  Visit, is_page, Event, path_chosen, submitted, logout_clicked, logout_ends, login_page, not_found,
  shown,
}

-- No answer to a login or to `/me`, and no tokens from a refresh: the visitor chooses paths, submits the
-- login page and clicks, and other logouts end.
abbrev pub is_quiet : Event → Bool
is_quiet (path_chosen p) = true
is_quiet submitted = true
is_quiet logout_clicked = true
is_quiet logout_ends = true
is_quiet e = false

module _ (env : Env) where
  -- A page outside the layout is shown, and there is no user and no token.
  abbrev pub IsOut : Visit → Type 0
  IsOut v =
      ((shown v ≡ login_page) ⊎ (shown v ≡ not_found))
      × (v.provider.user ≡ none)
      × (get_access_token env v.provider.storage ≡ none)
      × (get_refresh_token env v.provider.storage ≡ none)

  -- A session without a user or a token, and which nobody waits for.
  abbrev IsEmpty : Provider → Type 0
  IsEmpty s =
      (s.loading ≡ false)
      × (s.user ≡ none)
      × (get_access_token env s.storage ≡ none)
      × (get_refresh_token env s.storage ≡ none)

  abbrev IsAway : Visit → Type 0
  IsAway v = (is_page v.path ≡ false) × IsEmpty v.provider

  -- Logouts are begun where the panel is shown, which is after the opening.
  abbrev IsLate : Visit → Type 0
  IsLate v = v.provider.leaving ≢ 0 → v.provider.loading ≡ false
