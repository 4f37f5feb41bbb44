-- ===== src/Keys.antt =====
-- frontend/app/(dashboard)/keys/page.tsx: the virtual keys, their users' names and the drawer in
-- which one is generated.
pub mod Laws
pub mod Inputs
pub mod Saving
use Prim.Native.Char.{Char, code}
use text.Mathlib.Text.{◌==◌}
use clever_gate.Prelude.{
  ℕ, String, Bool, true, false, Option, none, some, List, [], ◌∷◌, ◌<>◌, truthy, or_null, map, trim,
  keep_if, split, slice, join, if◌then◌else◌,
}
use clever_gate.Json.{Json, Items, nil, cons, null, str, arr, obj, field, end}
use clever_gate.Runs
use clever_gate.Types.{ApiKey, ApiKeyCreated, User}
use clever_gate.Api.{Result, ok, err, message}
use clever_gate.Providers.Forms.{Notice, success, error, text_or_null}
use clever_gate.Users.{Deleted, deleted_with}

pub record Page : Type 0 where
  pub keys : List ApiKey
  pub users : List User
  pub loading : Bool
  pub drawer_open : Bool
  pub created_key : Option String

-- `load` when both of its requests have settled, or one has failed.
unfoldable pub loaded : Result (List ApiKey) → Result (List User) → Page → Page × Option Notice
loaded (ok ks) (ok us) p = (record p { keys = ks; users = us; loading = false }, none)
loaded (ok ks) (err e) p = (record p { loading = false }, some (error (message e)))
loaded (err e) us p = (record p { loading = false }, some (error (message e)))

unfoldable pub find_user : String → List User → Option User
find_user id [] = none
find_user id (u ∷ us) = if u.id == id then some u else find_user id us

abbrev name_or_short : String → Option User → String
name_or_short id none = slice 0 8 id
name_or_short id (some u) = u.username

unfoldable pub user_name : List User → String → String
unfolding find_user
user_name users id = name_or_short id (find_user id users)

pub record Row : Type 0 where
  pub name : String
  pub prefix : String
  pub user : String
  pub models : String
  pub status : String
  pub last_used : String

abbrev or_dash : Option String → String
or_dash none = "—"
or_dash (some s) = s

-- The column of models.
unfoldable pub models_text : Option (List String) → String
unfolding join
models_text none = "all"
models_text (some []) = "all"
models_text (some (m ∷ ms)) = join ", " (m ∷ ms)

unfoldable pub row : List User → ApiKey → Row
unfolding user_name models_text
row users k = record {
  name = or_dash k.name;
  prefix = k.key_prefix <> "…";
  user = user_name users k.user_id;
  models = models_text k.allowed_models;
  status = if k.is_active then "active" else "revoked";
  last_used = or_dash k.last_used_at;
}

unfoldable pub revoke : (String → Result (Unit {0})) → ApiKey → Deleted
revoke delete k =
    let path = "/api/admin/api-keys/" <> k.id in deleted_with path "Key revoked" (delete path)

pub record KeyForm : Type 0 where
  pub user_id : String
  pub name : String
  pub models : String

abbrev pub first_user : List User → String
first_user [] = ""
first_user (u ∷ us) = u.id

unfoldable pub open_form : List User → KeyForm
open_form users = record { user_id = first_user users; name = ""; models = "" }

-- `models ? models.split(",").map(trim).filter(Boolean) : null`
unfoldable pub allowed_models : String → Option (List String)
unfolding split
allowed_models models =
    if truthy models then some (keep_if truthy (map trim (split b',' models))) else none

abbrev pub items_of : List String → Items
items_of [] = nil
items_of (s ∷ ss) = cons (str s) (items_of ss)

abbrev pub models_json : Option (List String) → Json
models_json none = null
models_json (some ms) = arr (items_of ms)

unfoldable pub key_body : KeyForm → Json
unfolding allowed_models
key_body f = obj (
    field "user_id" (str f.user_id) (
      field "name" (text_or_null f.name)
        (field "allowed_models" (models_json (allowed_models f.models)) end)))

-- `handleSave` once its request has settled with the new key, or failed: the notice, and the page
-- after `onCreated`, which also starts a load.
pub record Created : Type 0 where
  pub body : Json
  pub notice : Notice
  pub page : Page
  pub reload : Bool

abbrev created_with : Json → Page → Result String → Created
created_with body p (ok key) = record {
  body = body;
  notice = success "Key generated";
  page = record p { created_key = some key; drawer_open = false };
  reload = true;
}
created_with body p (err e) = record {
  body = body;
  notice = error (message e);
  page = p;
  reload = false;
}

unfoldable pub handle_save : (Json → Result String) → KeyForm → Page → Created
unfolding key_body
handle_save send f p = created_with (key_body f) p (send (key_body f))

pub data Event : Type 0 where
  settled : Result (List ApiKey) → Result (List User) → Event
  generate_clicked : Event
  drawer_closed : Event
  created : String → Event
  alert_closed : Event

unfoldable pub step : Page → Event → Page
unfolding loaded
step p (settled ks us) = (loaded ks us p).0
step p generate_clicked = record p { drawer_open = true }
step p drawer_closed = record p { drawer_open = false }
step p (created key) = record p { created_key = some key; drawer_open = false }
step p alert_closed = record p { created_key = none }

abbrev pub run : Page → List Event → Page
run = Runs.run step
