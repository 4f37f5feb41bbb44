-- ===== src/Users/Inputs.antt =====
-- frontend/app/(dashboard)/users/page.tsx: the inputs of the drawer, and the question before a user
-- is deleted.
use clever_gate.Runs
use clever_gate.Prelude.{String, Bool, true, false, Option, none, some, List, if◌then◌else◌}
use clever_gate.Types.{User}
use clever_gate.Providers.Forms.{is_none}
use clever_gate.Widgets.{ConfirmOptions}
use clever_gate.Table.{Body, body, Column}
use clever_gate.Users.{UserForm, Page}

pub data Input : Type 0 where
  username_typed email_typed password_typed first_name_typed last_name_typed : String → Input
  admin_switched active_switched : Bool → Input

-- The name and the address can be written of a new user only, who alone has a field for a password.
unfoldable pub type_in : (editing : Option User) → UserForm → Input → UserForm
type_in editing f (username_typed s) = if is_none editing then record f { username = s } else f
type_in editing f (email_typed s) = if is_none editing then record f { email = s } else f
type_in editing f (password_typed s) = if is_none editing then record f { password = s } else f
type_in editing f (first_name_typed s) = record f { first_name = s }
type_in editing f (last_name_typed s) = record f { last_name = s }
type_in editing f (admin_switched b) = record f { is_admin = b }
type_in editing f (active_switched b) = record f { is_active = b }

abbrev pub type_all : (editing : Option User) → UserForm → List Input → UserForm
type_all editing = Runs.run (type_in editing)

unfoldable pub delete_question : ConfirmOptions
delete_question = record {
  title = "Delete user";
  message = "This will permanently delete the user.";
  confirm_label = some "Delete";
  cancel_label = none;
  danger = some true;
}

-- The table, in the place of which a spinner stands while the page loads.
unfoldable pub table_of : List (Column User) → (User → String → String) → Page → Option Body
table_of columns text_of p =
    let table = body text_of (λ u. u.id) false "No users yet." columns p.users in
    if p.loading then none else some table
