-- ===== src/Json.antt =====
-- JSON values as `JSON.parse` and `res.json()` give them, and what the client reads of them.
use clever_gate.Prelude.{
  String, Bool, true, false, Option, none, some, List, [], ◌∷◌, join, if◌then◌else◌,
}
use text.Mathlib.Text.{◌==◌}

-- A number is kept as the text that `String(n)` gives for it.
mutual
  pub data Json : Type 0 where
    null : Json
    bool : Bool → Json
    num : String → Json
    str : String → Json
    arr : Items → Json
    obj : Fields → Json

  pub data Items : Type 0 where
    nil : Items
    cons : Json → Items → Items

  pub data Fields : Type 0 where
    end : Fields
    field : String → Json → Fields → Fields

-- The value of a property of an object literal; a later duplicate replaces an earlier one when
-- the text is parsed, so keys are taken to be distinct.
unfoldable pub find_field : String → Fields → Option Json
find_field k end = none
find_field k (field j v fs) = if j == k then some v else find_field k fs

-- What reading a property does: it throws on `null`, and is `undefined` where there is none.
pub data Access : Type 0 where
  throws : Access
  undefined : Access
  value : Json → Access

abbrev access_of : Option Json → Access
access_of none = undefined
access_of (some v) = value v

-- `v.k`. Of the other kinds of value no property that the client names exists.
unfoldable pub get : String → Json → Access
unfolding find_field
get k null = throws
get k (obj fs) = access_of (find_field k fs)
get k v = undefined

-- `v?.k`
unfoldable pub get_opt : String → Json → Access
unfolding get
get_opt k null = undefined
get_opt k v = get k v

-- Whether a value counts as true in a condition.
abbrev pub is_zero_text : String → Bool
is_zero_text s = s == "0"

unfoldable pub is_truthy : Access → Bool
is_truthy (value (bool b)) = b
is_truthy (value (num n)) = if is_zero_text n then false else true
is_truthy (value (str s)) = if s == "" then false else true
is_truthy (value (arr xs)) = true
is_truthy (value (obj fs)) = true
is_truthy (value null) = false
is_truthy undefined = false
is_truthy throws = false

-- `String(v)`, which `localStorage.setItem` applies; the elements of an array are joined by
-- commas, `null` among them as the empty text.
unfoldable mutual
  pub show_json : Json → String
  show_json null = "null"
  show_json (bool true) = "true"
  show_json (bool false) = "false"
  show_json (num n) = n
  show_json (str s) = s
  show_json (arr xs) = join "," (show_items xs)
  show_json (obj fs) = "[object Object]"

  pub show_items : Items → List String
  show_items nil = []
  show_items (cons null vs) = "" ∷ show_items vs
  show_items (cons v vs) = show_json v ∷ show_items vs

abbrev pub to_text : Access → String
to_text (value v) = show_json v
to_text undefined = "undefined"
to_text throws = "undefined"
