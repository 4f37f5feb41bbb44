-- ===== src/Users.antt =====
-- frontend/app/(dashboard)/users/page.tsx: the list of users, and the drawer in which one is
-- written.
pub mod Laws
pub mod Inputs
pub mod Saving
use clever_gate.Prelude.{
  ℕ, String, Bool, true, false, Option, none, some, List, [], ◌∷◌, ◌<>◌, truthy, if◌then◌else◌,
}
use clever_gate.Json.{Json, Fields, null, bool, str, obj, field, end}
use clever_gate.Types.{User}
use clever_gate.Api.{Result, ok, err, message}
use clever_gate.Providers.Forms.{
  Call, post, patch, Notice, success, error, Saved, submit, text_or_null, text_of,
}

pub record Page : Type 0 where
  pub users : List User
  pub loading : Bool
  pub drawer_open : Bool
  pub editing : Option User

-- `load` when its request settles, with the notice that it gives.
unfoldable pub loaded : Result (List User) → Page → Page × Option Notice
loaded (ok items) p = (record p { users = items; loading = false }, none)
loaded (err e) p = (record p { loading = false }, some (error (message e)))

-- `onConfirm` of the deletion: the request's path, the notice, and whether the list is loaded
-- again.
pub record Deleted : Type 0 where
  pub path : String
  pub notice : Notice
  pub reload : Bool

abbrev pub deleted_with : String → String → Result (Unit {0}) → Deleted
deleted_with path text (ok u) = record { path = path; notice = success text; reload = true }
deleted_with path text (err e) = record { path = path; notice = error (message e); reload = false }

unfoldable pub delete_user : (String → Result (Unit {0})) → User → Deleted
delete_user delete u =
    let path = "/api/admin/users/" <> u.id in deleted_with path "User deleted" (delete path)

pub data Event : Type 0 where
  settled : Result (List User) → Event
  add_clicked : Event
  edit_clicked : User → Event
  drawer_closed : Event
  saved : Event

unfoldable pub step : Page → Event → Page
unfolding loaded
step p (settled r) = (loaded r p).0
step p add_clicked = record p { editing = none; drawer_open = true }
step p (edit_clicked u) = record p { editing = some u; drawer_open = true }
step p drawer_closed = record p { drawer_open = false }
step p saved = record p { drawer_open = false }

-- The texts of one row, with the badges of its roles.
pub record Row : Type 0 where
  pub username : String
  pub email : String
  pub roles : List String
  pub last_login : String

abbrev or_dash : Option String → String
or_dash none = "—"
or_dash (some s) = s

abbrev roles_of : User → List String
roles_of u =
    let status = (if u.is_active then "active" else "disabled") ∷ [] in
    if u.is_admin then "admin" ∷ status else status

unfoldable pub row : User → Row
row u = record {
  username = u.username;
  email = u.email;
  roles = roles_of u;
  last_login = or_dash u.last_login_at;
}

pub record UserForm : Type 0 where
  pub username : String
  pub email : String
  pub password : String
  pub first_name : String
  pub last_name : String
  pub is_admin : Bool
  pub is_active : Bool

-- The effect that fills the form when the drawer opens.
unfoldable pub open_user : Option User → UserForm
open_user none = record {
  username = "";
  email = "";
  password = "";
  first_name = "";
  last_name = "";
  is_admin = false;
  is_active = true;
}
open_user (some u) = record {
  username = u.username;
  email = u.email;
  password = "";
  first_name = text_of u.first_name;
  last_name = text_of u.last_name;
  is_admin = u.is_admin;
  is_active = u.is_active;
}

-- The request of `handleSave`.
unfoldable pub user_call : Option User → UserForm → Call
user_call (some e) f = patch ("/api/admin/users/" <> e.id) (
    obj (
      field "first_name" (text_or_null f.first_name) (
        field "last_name" (text_or_null f.last_name)
          (field "is_admin" (bool f.is_admin) (field "is_active" (bool f.is_active) end)))))
user_call none f = post "/api/admin/users" (
    obj (
      field "username" (str f.username) (
        field "email" (str f.email) (
          field "password" (str f.password) (
            field "first_name" (text_or_null f.first_name) (
              field "last_name" (text_or_null f.last_name) (
                field "is_admin" (bool f.is_admin) (field "is_active" (bool f.is_active) end))))))))

unfoldable pub save_user : (Call → Result (Option Json)) → Option User → UserForm → Saved
unfolding user_call
save_user send editing f = submit send (user_call editing f) "User saved"

-- Which fields of the drawer can be written: the names and switches always, the name, the address
-- and the password only of a new user.
pub record Drawer : Type 0 where
  pub title : String
  pub identity_disabled : Bool
  pub password_shown : Bool

unfoldable pub drawer : Option User → Drawer
drawer none = record { title = "Add User"; identity_disabled = false; password_shown = true }
drawer (some u) = record { title = "Edit User"; identity_disabled = true; password_shown = false }
