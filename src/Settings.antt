-- ===== src/Settings.antt =====
-- frontend/app/(dashboard)/settings/page.tsx: the drafts of the settings, and saving them. An
-- object is an association list with distinct keys. `stringify` is `JSON.stringify`, `parse` is
-- `JSON.parse`, and `lower` is `toLowerCase`.
pub mod Laws
pub mod Preferences
use clever_gate.Prelude.{
  String, Bool, true, false, ◌||◌, Option, none, some, List, [], ◌∷◌, insert, includes,
  if◌then◌else◌, ◌≡◌, refl, lookup,
}
use clever_gate.Json.{Json, str, obj, Fields, field, end}
use clever_gate.Types.{Setting}
use clever_gate.Api.{Result, ok, err, message}
use clever_gate.Providers.Forms.{Notice, success, error}

pub record Page : Type 0 where
  pub settings : List Setting
  pub draft : List (String × String)
  pub loading : Bool

pub data Icon : Type 0 where
  key_icon database_icon activity_icon sliders_icon : Icon

unfoldable pub get_setting_icon : (String → String) → String → Icon
unfolding includes
get_setting_icon lower key =
    let k = lower key in
    if includes k "key" || includes k "auth" || includes k "token" || includes k "secret"
    then key_icon
    else if includes k "db" || includes k "cache" || includes k "redis"
    then database_icon
    else if includes k "log"
        || includes k "audit"
        || includes k "monitor"
        || includes k "observability"
    then activity_icon
    else sliders_icon

module _ (stringify : Json → String) where
  -- `for (const s of res.settings) d[s.key] = JSON.stringify(s.value)`
  unfoldable pub draft_from : List (String × String) → List Setting → List (String × String)
  draft_from d [] = d
  draft_from d (s ∷ ss) = draft_from (insert s.key (stringify (obj s.value)) d) ss

  unfoldable pub load : Result (List Setting) → Page → Page × Option Notice
  unfolding draft_from
  load (ok settings) p =
      (record { settings = settings; draft = draft_from [] settings; loading = false }, none)
  load (err e) p = (record p { loading = false }, some (error (message e)))

unfoldable pub edit_draft : String → String → Page → Page
edit_draft key text p = record p { draft = insert key text p.draft }

-- `draft[s.key] ?? ""`
abbrev text_or_empty : Option String → String
text_or_empty none = ""
text_or_empty (some s) = s

unfoldable pub shown_value : Page → Setting → String
unfolding lookup
shown_value p s = text_or_empty (lookup s.key p.draft)

-- The settings that stand in the page's list, with their icons and texts.
unfoldable pub rows : (String → String) → Page → List Setting → List (Icon × String × String)
unfolding get_setting_icon shown_value
rows lower p [] = []
rows lower p (s ∷ ss) = (get_setting_icon lower s.key, s.key, shown_value p s) ∷ rows lower p ss

module _ (parse : String → Option Json) where
  -- `try { JSON.parse(value) } catch { value }`
  abbrev pub read_value : String → Option Json → Json
  read_value text none = str text
  read_value text (some v) = v

  -- The keys of an object are distinct, so that each is assigned once.
  unfoldable pub updates_of : List (String × String) → List (String × Json)
  updates_of [] = []
  updates_of ((k, text) ∷ d) = (k, read_value text (parse text)) ∷ updates_of d

abbrev pub object_of : List (String × Json) → Fields
object_of [] = end
object_of ((k, v) ∷ m) = field k v (object_of m)

-- `handleSave`: the body that is sent, the notice, and whether the settings are loaded again.
pub record Saved : Type 0 where
  pub body : Json
  pub notice : Notice
  pub reload : Bool

abbrev saved_notice : Result (Option Json) → Notice
saved_notice (ok v) = success "Settings saved"
saved_notice (err e) = error (message e)

abbrev is_done : Result (Option Json) → Bool
is_done (ok v) = true
is_done (err e) = false

unfoldable pub handle_save :
    (String → Option Json) → (Json → Result (Option Json)) → List (String × String) → Saved
unfolding updates_of
handle_save parse patch draft =
    let body = obj (object_of (updates_of parse draft)) in
    record { body = body; notice = saved_notice (patch body); reload = is_done (patch body) }

-- `THEMES`
pub record ThemeMeta : Type 0 where
  pub key : String
  pub label : String
  pub light_bg : String
  pub light_primary : String
  pub dark_bg : String
  pub dark_primary : String

unfoldable pub meta : String → String → String → String → String → String → ThemeMeta
meta key label light_bg light_primary dark_bg dark_primary = record {
  key = key;
  label = label;
  light_bg = light_bg;
  light_primary = light_primary;
  dark_bg = dark_bg;
  dark_primary = dark_primary;
}

unfoldable pub themes : List ThemeMeta
unfolding meta
themes =
    meta "ocean" "Ocean Indigo" "#F9F7F7" "#3F72AF" "#112D4E" "#3F72AF"
    ∷ meta "forest" "Forest Mint" "#FFF4E1" "#428475" "#1A312C" "#428475"
    ∷ meta "warm" "Warm Coffee" "#FFF8F0" "#8C5A3C" "#4B2E2B" "#C08552"
    ∷ meta "sage" "Sage Garden" "#F2F5EE" "#2B5748" "#273338" "#618764"
    ∷ meta "lavender" "Lavender Fields" "#eef2ff" "#6366f1" "#1e1b4b" "#818cf8"
    ∷ meta "teal" "Teal Peach" "#fff3e0" "#00897b" "#1c2d2d" "#26a69a"
    ∷ meta "sunset" "Sunset Gold" "#fffdd0" "#f57c00" "#2e1c1a" "#ffb74d"
    ∷ meta "olive" "Olive Rust" "#fefae0" "#606c38" "#3c1a1a" "#dda15e"
    ∷ meta "cyberpunk" "Cyberpunk Neon" "#fff9c4" "#e91e63" "#2a0835" "#ec407a"
    ∷ meta "earth" "Vintage Earth" "#f4f1de" "#81b29a" "#1b1c28" "#e07a5f"
    ∷ meta "cherry" "Crimson Sunset" "#ffeb3b" "#c62828" "#2c0510" "#ff7043"
    ∷ meta "mint" "Mint Slate" "#fff9f0" "#00bfa5" "#081210" "#1de9b6"
    ∷ meta "vibrant" "Vibrant Primary" "#ffeb3b" "#e91e63" "#0d0f2a" "#2979ff"
    ∷ meta "noir" "Noir Ruby" "#f5f5f5" "#424242" "#000000" "#c2185b"
    ∷ meta "aqua" "Tropical Aqua" "#ffe082" "#008080" "#000000" "#80f1d3"
    ∷ []
