-- ===== src/Shell/Login.antt =====
-- frontend/app/(auth)/login/page.tsx: the fields of the login page, and what it shows.
use text.Mathlib.Text.{◌==◌}
use clever_gate.Runs
use clever_gate.Prelude.{
  String, Bool, true, false, ◌&&◌, Option, none, some, List, [], ◌∷◌, truthy, or_null,
  if◌then◌else◌,
}
use clever_gate.Api.{Result}
use clever_gate.Shell.{LoginPage, login_settled}
use clever_gate.Shell.Frame.{SchemeIcon, scheme_icon}

unfoldable pub initial : LoginPage
initial = record { username = ""; password = ""; totp = ""; error = ""; loading = false }

pub data Field : Type 0 where
  username_field password_field totp_field : Field

-- The form submits once the two fields that it requires are filled.
pub data Event : Type 0 where
  typed : Field → String → Event
  submitted : Event
  settled : Result (Unit {0}) → Event

-- The `onChange` of a field.
abbrev pub type_in : Field → String → LoginPage → LoginPage
type_in username_field s p = record p { username = s }
type_in password_field s p = record p { password = s }
type_in totp_field s p = record p { totp = s }

-- `handleSubmit` up to its `await`.
abbrev pub begin_submit : LoginPage → LoginPage
begin_submit p =
    let begun : LoginPage = record p { error = ""; loading = true } in
    if truthy p.username && truthy p.password then begun else p

unfoldable pub step : LoginPage → Event → LoginPage
step p (typed f s) = type_in f s p
step p submitted = begin_submit p
step p (settled r) = (login_settled r p).0

abbrev pub run : LoginPage → List Event → LoginPage
run = Runs.run step

-- What `login` is called with.
unfoldable pub login_arguments : LoginPage → String × String × Option String
login_arguments p = (p.username, p.password, or_null p.totp)

pub record View : Type 0 where
  pub icon : SchemeIcon
  pub background : String
  pub border : String
  pub alert : Option String
  pub fields : List (String × String)
  pub busy : Bool

unfoldable pub view : (color_scheme : String) → LoginPage → View
view color_scheme p = record {
  icon = scheme_icon "#6366f1" color_scheme;
  background =
      if color_scheme == "dark" then "rgba(20, 24, 38, 0.35)" else "rgba(255, 255, 255, 0.35)";
  border =
      if color_scheme == "dark"
      then "1px solid rgba(255, 255, 255, 0.04)"
      else "1px solid rgba(0, 0, 0, 0.06)";
  alert = if truthy p.error then some p.error else none;
  fields =
      ("Username", p.username) ∷ ("Password", p.password) ∷ ("TOTP Code (optional)", p.totp) ∷ [];
  busy = p.loading;
}
