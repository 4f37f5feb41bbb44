-- ===== src/Settings/Preferences/Laws.antt =====
-- What the buttons of the theme's card leave lit.

use clever_gate.Prelude.{
  String, Bool, true, false, List, [], ◌∷◌, ◌≡◌, refl, ◌∙◌, ap, ◌⊎◌, inl, inr, if◌then◌else◌,
}
use clever_gate.Settings.{themes, meta}
use clever_gate.Theme.{
  Registry, ThemeVariant, ocean, forest, warm, sage, lavender, teal, sunset, olive, cyberpunk,
  earth, cherry, mint, vibrant, noir, aqua, variant_text, toggle_color_scheme, set_theme_variant,
}
use clever_gate.Settings.Preferences.{ModeButton, mode_buttons, click_mode, Tile, tiles, click_tile}

-- The keys of the tiles that are lit.
abbrev pub lit_keys : List Tile → List String
lit_keys [] = []
lit_keys (t ∷ ts) = let rest = lit_keys ts in if t.lit then t.key ∷ rest else rest

-- A click on a tile leaves this tile lit and no other, whatever the storage held before.
lit_keys-click_tile :
    (v : ThemeVariant) (r : Registry) → lit_keys (tiles (click_tile v r)) ≡ variant_text v ∷ []
unfolding click_tile tiles set_theme_variant variant_text themes meta
lit_keys-click_tile ocean r = refl
lit_keys-click_tile forest r = refl
lit_keys-click_tile warm r = refl
lit_keys-click_tile sage r = refl
lit_keys-click_tile lavender r = refl
lit_keys-click_tile teal r = refl
lit_keys-click_tile sunset r = refl
lit_keys-click_tile olive r = refl
lit_keys-click_tile cyberpunk r = refl
lit_keys-click_tile earth r = refl
lit_keys-click_tile cherry r = refl
lit_keys-click_tile mint r = refl
lit_keys-click_tile vibrant r = refl
lit_keys-click_tile noir r = refl
lit_keys-click_tile aqua r = refl

-- The schemes of the buttons that are lit.
abbrev pub lit_schemes : List ModeButton → List String
lit_schemes [] = []
lit_schemes (b ∷ bs) = let rest = lit_schemes bs in if b.lit then b.scheme ∷ rest else rest

lit_schemes-mode_buttons :
    (r : Registry)
    → (r.color_scheme ≡ "dark") ⊎ (r.color_scheme ≡ "light")
    → lit_schemes (mode_buttons r) ≡ r.color_scheme ∷ []
unfolding mode_buttons
lit_schemes-mode_buttons r (inl h) = rw h refl
lit_schemes-mode_buttons r (inr h) = rw h refl

abbrev pub scheme_of : Bool → String
scheme_of true = "dark"
scheme_of false = "light"

click_mode-color_scheme :
    (dark : Bool) (r : Registry)
    → (r.color_scheme ≡ "dark") ⊎ (r.color_scheme ≡ "light")
    → (click_mode (scheme_of dark) r).color_scheme ≡ scheme_of dark
unfolding click_mode toggle_color_scheme
click_mode-color_scheme true r (inl h) = simp (h)
click_mode-color_scheme true r (inr h) = simp (h)
click_mode-color_scheme false r (inl h) = simp (h)
click_mode-color_scheme false r (inr h) = simp (h)

either_scheme : (dark : Bool) (s : String) → s ≡ scheme_of dark → (s ≡ "dark") ⊎ (s ≡ "light")
either_scheme true s h = inl h
either_scheme false s h = inr h

-- Where one of the two schemes is shown, a click on the button of a scheme leaves that scheme shown
-- and that button lit alone, whether or not it was lit before.
lit_schemes-click_mode :
    (dark : Bool) (r : Registry)
    → (r.color_scheme ≡ "dark") ⊎ (r.color_scheme ≡ "light")
    → let q = click_mode (scheme_of dark) r in
      (q.color_scheme ≡ scheme_of dark) × (lit_schemes (mode_buttons q) ≡ scheme_of dark ∷ [])
lit_schemes-click_mode dark r h =
    let q = click_mode (scheme_of dark) r in
    let e = click_mode-color_scheme dark r h in
    (e, lit_schemes-mode_buttons q (either_scheme dark q.color_scheme e) ∙ ap (λ s. s ∷ []) e)
