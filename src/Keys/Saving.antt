-- ===== src/Keys/Saving.antt =====
-- What the drawer of a new key sends, and how long the key is shown.
use clever_gate.Runs
use clever_gate.Runs.{last_given}
use clever_gate.Prelude.{String, true, false, Option, none, some, List, [], ◌∷◌, ◌≡◌, refl}
use clever_gate.Json.{Json, str, arr, obj, field, end}
use clever_gate.Types.{User}
use clever_gate.Api.{Result, ok, err}
use clever_gate.Providers.Forms.{success, text_or_null, text_of}
use clever_gate.Keys.{
  Page, loaded, Event, settled, generate_clicked, drawer_closed, created, alert_closed, KeyForm,
  first_user, open_form, models_text, items_of, key_body, handle_save, step, run,
}
use clever_gate.Keys.Inputs.{
  Input, user_chosen, name_typed, models_typed, users_changed, type_in, type_all,
}
use clever_gate.Keys.Laws.{AllNames, allowed_models-models_text}

-- What an input gives to each field.
abbrev pub user_given : Input → Option String
user_given (user_chosen v) = some (text_of v)
user_given (users_changed users) = some (first_user users)
user_given i = none

abbrev pub name_given : Input → Option String
name_given (name_typed s) = some s
name_given (users_changed users) = some ""
name_given i = none

abbrev pub models_given : Input → Option String
models_given (models_typed s) = some s
models_given (users_changed users) = some ""
models_given i = none

type_all_given :
    (f : KeyForm) (is : List Input)
    → type_all f is ≡ record {
      user_id = last_given user_given f.user_id is;
      name = last_given name_given f.name is;
      models = last_given models_given f.models is;
    }
unfolding Runs.run type_in open_form
type_all_given f [] = refl
type_all_given f (user_chosen v ∷ is) = type_all_given (type_in f (user_chosen v)) is
type_all_given f (name_typed s ∷ is) = type_all_given (type_in f (name_typed s)) is
type_all_given f (models_typed s ∷ is) = type_all_given (type_in f (models_typed s)) is
type_all_given f (users_changed users ∷ is) = type_all_given (type_in f (users_changed users)) is

-- The body that is to be sent after the inputs, for the models of a list.
abbrev pub expected_body : List User → List Input → List String → Json
expected_body users is ms = obj (
    field "user_id" (str (last_given user_given (first_user users) is)) (
      field "name" (text_or_null (last_given name_given "" is))
        (field "allowed_models" (arr (items_of ms)) end)))

typed_body :
    (users : List User) (is : List Input) (m : String) (ms : List String)
    → last_given models_given "" is ≡ models_text (some (m ∷ ms))
    → AllNames (m ∷ ms)
    → key_body (type_all (open_form users) is) ≡ expected_body users is (m ∷ ms)
unfolding key_body open_form
typed_body users is m ms typed names =
    rw (type_all_given (open_form users) is, typed, allowed_models-models_text m ms names) refl

-- What an event makes of the notice's key.
abbrev pub notice_given : Event → Option (Option String)
notice_given (created key) = some (some key)
notice_given alert_closed = some none
notice_given e = none

run-created_key :
    (p : Page) (es : List Event) → (run p es).created_key ≡ last_given notice_given p.created_key es
unfolding Runs.run step loaded
run-created_key p [] = refl
run-created_key p (settled (ok ks) (ok us) ∷ es) =
    run-created_key (step p (settled (ok ks) (ok us))) es
run-created_key p (settled (ok ks) (err e) ∷ es) =
    run-created_key (step p (settled (ok ks) (err e))) es
run-created_key p (settled (err e) us ∷ es) = run-created_key (step p (settled (err e) us)) es
run-created_key p (generate_clicked ∷ es) = run-created_key (step p generate_clicked) es
run-created_key p (drawer_closed ∷ es) = run-created_key (step p drawer_closed) es
run-created_key p (created key ∷ es) = run-created_key (step p (created key)) es
run-created_key p (alert_closed ∷ es) = run-created_key (step p alert_closed) es

-- A models' text that lists names as the table does, each of them not empty and without a comma or
-- white space at its ends, is sent as the list of these names, with the user and the name that were
-- given last, or else the first user and no name; a list of users that arrives while the drawer is
-- open gives its first user, no name and no models. Once the server answers with a key, the drawer is
-- closed, the list is loaded again, and the notice has the key until it is closed or another key is
-- generated.
pub generate_key_typed :
    (send : Json → Result String) (users : List User) (is : List Input) (p : Page) (m : String)
    (ms : List String) (key : String) (es : List Event)
    → last_given models_given "" is ≡ models_text (some (m ∷ ms))
    → AllNames (m ∷ ms)
    → send (expected_body users is (m ∷ ms)) ≡ ok key
    → let c = handle_save send (type_all (open_form users) is) p in
      (c.body ≡ expected_body users is (m ∷ ms))
      × (c.notice ≡ success "Key generated")
      × (c.page.drawer_open ≡ false)
      × (c.reload ≡ true)
      × ((run c.page es).created_key ≡ last_given notice_given (some key) es)
unfolding handle_save
generate_key_typed send users is p m ms key es typed names answered =
    rw (typed_body users is m ms typed names, answered)
      (
        refl,
        refl,
        refl,
        refl,
        run-created_key (record p { created_key = some key; drawer_open = false }) es,
      )
