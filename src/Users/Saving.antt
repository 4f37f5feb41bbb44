-- ===== src/Users/Saving.antt =====
-- What the drawer of a user sends, from its opening over what is typed to its save.
use clever_gate.Runs
use clever_gate.Runs.{last_given}
use clever_gate.Prelude.{
  String, Bool, true, false, Option, none, some, List, [], ◌∷◌, ◌<>◌, ◌≡◌, refl, ap, ◌↔◌,
}
use clever_gate.Json.{Json, bool, str, obj, Fields, field, end}
use clever_gate.Types.{User}
use clever_gate.Api.{Result, ok}
use clever_gate.Providers.Forms.{Call, post, patch, text_or_null, text_of}
use clever_gate.Providers.Forms.Laws.{submit_outcome}
use clever_gate.Users.{UserForm, open_user, user_call, save_user}
use clever_gate.Users.Inputs.{
  Input, username_typed, email_typed, password_typed, first_name_typed, last_name_typed,
  admin_switched, active_switched, type_in, type_all,
}

abbrev pub username_given : Input → Option String
username_given (username_typed s) = some s
username_given i = none

abbrev pub email_given : Input → Option String
email_given (email_typed s) = some s
email_given i = none

abbrev pub password_given : Input → Option String
password_given (password_typed s) = some s
password_given i = none

abbrev pub first_name_given : Input → Option String
first_name_given (first_name_typed s) = some s
first_name_given i = none

abbrev pub last_name_given : Input → Option String
last_name_given (last_name_typed s) = some s
last_name_given i = none

abbrev pub admin_given : Input → Option Bool
admin_given (admin_switched b) = some b
admin_given i = none

abbrev pub active_given : Input → Option Bool
active_given (active_switched b) = some b
active_given i = none

-- The form of a new user, and of one that is edited.
abbrev new_form : UserForm → List Input → UserForm
new_form f is = record {
  username = last_given username_given f.username is;
  email = last_given email_given f.email is;
  password = last_given password_given f.password is;
  first_name = last_given first_name_given f.first_name is;
  last_name = last_given last_name_given f.last_name is;
  is_admin = last_given admin_given f.is_admin is;
  is_active = last_given active_given f.is_active is;
}

abbrev edited_form : UserForm → List Input → UserForm
edited_form f is = record f {
  first_name = last_given first_name_given f.first_name is;
  last_name = last_given last_name_given f.last_name is;
  is_admin = last_given admin_given f.is_admin is;
  is_active = last_given active_given f.is_active is;
}

type_all-new : (f : UserForm) (is : List Input) → type_all none f is ≡ new_form f is
unfolding Runs.run type_in
type_all-new f [] = refl
type_all-new f (username_typed s ∷ is) = type_all-new (type_in none f (username_typed s)) is
type_all-new f (email_typed s ∷ is) = type_all-new (type_in none f (email_typed s)) is
type_all-new f (password_typed s ∷ is) = type_all-new (type_in none f (password_typed s)) is
type_all-new f (first_name_typed s ∷ is) = type_all-new (type_in none f (first_name_typed s)) is
type_all-new f (last_name_typed s ∷ is) = type_all-new (type_in none f (last_name_typed s)) is
type_all-new f (admin_switched b ∷ is) = type_all-new (type_in none f (admin_switched b)) is
type_all-new f (active_switched b ∷ is) = type_all-new (type_in none f (active_switched b)) is

type_all-edited :
    (u : User) (f : UserForm) (is : List Input) → type_all (some u) f is ≡ edited_form f is
unfolding Runs.run type_in
type_all-edited u f [] = refl
type_all-edited u f (username_typed s ∷ is) =
    type_all-edited u (type_in (some u) f (username_typed s)) is
type_all-edited u f (email_typed s ∷ is) = type_all-edited u (type_in (some u) f (email_typed s)) is
type_all-edited u f (password_typed s ∷ is) =
    type_all-edited u (type_in (some u) f (password_typed s)) is
type_all-edited u f (first_name_typed s ∷ is) =
    type_all-edited u (type_in (some u) f (first_name_typed s)) is
type_all-edited u f (last_name_typed s ∷ is) =
    type_all-edited u (type_in (some u) f (last_name_typed s)) is
type_all-edited u f (admin_switched b ∷ is) =
    type_all-edited u (type_in (some u) f (admin_switched b)) is
type_all-edited u f (active_switched b ∷ is) =
    type_all-edited u (type_in (some u) f (active_switched b)) is

-- The names and switches as they are sent: an empty name is none.
abbrev pub names_and_switches :
    (first_name last_name : String) → (admin active : Bool) → List Input → Fields
names_and_switches first_name last_name admin active is =
    field "first_name" (text_or_null (last_given first_name_given first_name is)) (
      field "last_name" (text_or_null (last_given last_name_given last_name is)) (
        field "is_admin" (bool (last_given admin_given admin is))
          (field "is_active" (bool (last_given active_given active is)) end)))

-- The request that is to be sent after the inputs.
abbrev pub expected_call : Option User → List Input → Call
expected_call none is = post "/api/admin/users" (
    obj (
      field "username" (str (last_given username_given "" is)) (
        field "email" (str (last_given email_given "" is)) (
          field "password" (str (last_given password_given "" is))
            (names_and_switches "" "" false true is)))))
expected_call (some u) is = patch ("/api/admin/users/" <> u.id) (
    obj (names_and_switches (text_of u.first_name) (text_of u.last_name) u.is_admin u.is_active is))

typed_call :
    (editing : Option User) (is : List Input)
    → user_call editing (type_all editing (open_user editing) is) ≡ expected_call editing is
unfolding user_call open_user
typed_call none is = ap (user_call none) (type_all-new (open_user none) is)
typed_call (some u) is = ap (user_call (some u)) (type_all-edited u (open_user (some u)) is)

-- Saving what was typed since the drawer was opened sends one request: for each field the last
-- value that was given to it, or else the one that was loaded. Of a user that is edited only the
-- names and switches are sent, whatever else is typed. The button is not left busy, and the user
-- counts as saved exactly when the request succeeds.
pub save_user_typed :
    (send : Call → Result (Option Json)) (editing : Option User) (is : List Input)
    → let s = save_user send editing (type_all editing (open_user editing) is) in
      (s.calls ≡ expected_call editing is ∷ [])
      × (s.saving ≡ false)
      × ((s.is_saved ≡ true) ↔ ((r : Option Json) × (send (expected_call editing is) ≡ ok r)))
unfolding save_user
save_user_typed send editing is =
    let (ended, calls, saved) = submit_outcome send (expected_call editing is) "User saved" in
    rw (typed_call editing is) (calls, ended, saved)
