-- ===== src/Keys/Inputs.antt =====
-- frontend/app/(dashboard)/keys/page.tsx: the inputs of the drawer, the question before a key is
-- revoked, and the notice that shows a new key.
use clever_gate.Runs
use clever_gate.Prelude.{
  String, Bool, true, false, Option, none, some, List, map, ◌<>◌, truthy, if◌then◌else◌,
}
use clever_gate.Types.{ApiKey, User}
use clever_gate.Providers.Forms.{text_of}
use clever_gate.Widgets.{ConfirmOptions}
use clever_gate.Table.{Body, body, Column}
use clever_gate.Keys.{KeyForm, open_form, Page}

pub data Input : Type 0 where
  user_chosen : Option String → Input
  name_typed models_typed : String → Input
  -- The page's list of users changes while the drawer is open, and its effect runs again.
  users_changed : List User → Input

unfoldable pub type_in : KeyForm → Input → KeyForm
unfolding open_form
type_in f (user_chosen v) = record f { user_id = text_of v }
type_in f (name_typed s) = record f { name = s }
type_in f (models_typed s) = record f { models = s }
type_in f (users_changed users) = open_form users

abbrev pub type_all : KeyForm → List Input → KeyForm
type_all = Runs.run type_in

-- The choices of the selector of users.
unfoldable pub user_select : List User → List (String × String)
user_select users = map (λ u. (u.id, u.username <> " (" <> u.email <> ")")) users

unfoldable pub revoke_question : ConfirmOptions
revoke_question = record {
  title = "Revoke key";
  message = "This key will be permanently revoked.";
  confirm_label = some "Revoke";
  cancel_label = none;
  danger = some true;
}

-- The key in the notice, which is not there for an empty one; `copied` gives the button's text.
abbrev shown_key : Bool → Option String → Option (String × String)
shown_key copied none = none
shown_key copied (some key) =
    if truthy key then some (key, if copied then "Copied" else "Copy") else none

unfoldable pub alert : (copied : Bool) → Page → Option (String × String)
alert copied p = shown_key copied p.created_key

-- The table, in the place of which a spinner stands while the page loads.
unfoldable pub table_of : List (Column ApiKey) → (ApiKey → String → String) → Page → Option Body
table_of columns text_of p =
    let table = body text_of (λ k. k.id) false "No virtual keys yet." columns p.keys in
    if p.loading then none else some table
