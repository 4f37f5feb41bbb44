-- ===== src/Users/Laws.antt =====
-- Saving a user that was opened and not changed.
use clever_gate.Prelude.{Option, some, ◌≡◌, refl, ◌<>◌, [], ◌∷◌, ◌↔◌, true, false}
use clever_gate.Json.{Json, bool, obj, field, end}
use clever_gate.Types.{User}
use clever_gate.Api.{Result, ok}
use clever_gate.Providers.Forms.{Call, patch}
use clever_gate.Providers.Forms.Laws.{kept_url, kept_url-text_of, submit_outcome}
use clever_gate.Users.{open_user, user_call, save_user, UserForm}

-- The names and switches of a user; an empty name counts as none.
abbrev pub kept_body : User → Json
kept_body u = obj (
    field "first_name" (kept_url u.first_name) (
      field "last_name" (kept_url u.last_name)
        (field "is_admin" (bool u.is_admin) (field "is_active" (bool u.is_active) end))))

-- An edited user that was not changed is patched with its own names and switches, an empty name
-- counting as none; whatever the form holds, saving sends one request, ends, and counts as saved
-- exactly when that request succeeds.
pub save_user_unchanged :
    (send : Call → Result (Option Json)) (u : User) (editing : Option User) (f : UserForm)
    → (user_call (some u) (open_user (some u)) ≡ patch ("/api/admin/users/" <> u.id) (kept_body u))
      × ((save_user send editing f).saving ≡ false)
      × ((save_user send editing f).calls ≡ user_call editing f ∷ [])
      × (((save_user send editing f).is_saved ≡ true)
          ↔ ((r : Option Json) × (send (user_call editing f) ≡ ok r)))
unfolding user_call open_user save_user
save_user_unchanged send u editing f =
    let (ended, calls, saved) = submit_outcome send (user_call editing f) "User saved" in
    (rw (kept_url-text_of u.first_name, kept_url-text_of u.last_name) refl, ended, calls, saved)
