-- ===== src/Theme/Laws.antt =====
-- What is shown is what the next visit shows.
use text.Mathlib.Text.{◌==◌}
use clever_gate.Runs.{run-keeps}
use clever_gate.Prelude.{true, some, List, truthy, ◌≡◌, refl, arith, inl, inr, Bool-cases}
use clever_gate.Theme.{
  ThemeVariant, ocean, forest, warm, sage, lavender, teal, sunset, olive, cyberpunk, earth, cherry,
  mint, vibrant, noir, aqua, variant_text, Stored, get_stored_scheme, get_stored_variant, Registry,
  initial, mount, toggle_color_scheme, set_theme_variant, Event, toggle, choose, step, run,
}

variant_text-truthy : (t : ThemeVariant) → truthy (variant_text t) ≡ true
unfolding variant_text
variant_text-truthy ocean = refl
variant_text-truthy forest = refl
variant_text-truthy warm = refl
variant_text-truthy sage = refl
variant_text-truthy lavender = refl
variant_text-truthy teal = refl
variant_text-truthy sunset = refl
variant_text-truthy olive = refl
variant_text-truthy cyberpunk = refl
variant_text-truthy earth = refl
variant_text-truthy cherry = refl
variant_text-truthy mint = refl
variant_text-truthy vibrant = refl
variant_text-truthy noir = refl
variant_text-truthy aqua = refl

-- The storage and the document say what is shown.
abbrev pub IsKept : Registry → Type 0
IsKept r =
    (get_stored_scheme true r.stored ≡ r.color_scheme)
    × (get_stored_variant true r.stored ≡ r.theme_variant)
    × (r.attribute ≡ some r.theme_variant)

step-IsKept : (r : Registry) (e : Event) → IsKept r → IsKept (step r e)
unfolding step toggle_color_scheme set_theme_variant get_stored_scheme get_stored_variant
step-IsKept r toggle (s, v, a) = elim (Bool-cases (r.color_scheme == "dark")) [
  | inl dark ↦ (rw dark refl, v, a)
  | inr light ↦ (rw light refl, v, a)
]
step-IsKept r (choose t) (s, v, a) = (s, ground (arith, variant_text-truthy t), refl)

run-IsKept : (r : Registry) (es : List Event) → IsKept r → IsKept (run r es)
run-IsKept = run-keeps step IsKept step-IsKept

mount-IsKept : (r : Registry) → IsKept (mount r)
unfolding mount
mount-IsKept r = (refl, refl, refl)

-- Whatever the user chooses, a later visit with the same storage shows the scheme and the variant
-- that are shown now, and the document carries the variant.
pub run-mount :
    (s : Stored) (es : List Event)
    → let r = run (mount (initial s)) es in
      let later = mount (initial r.stored) in
      (later.color_scheme ≡ r.color_scheme)
      × (later.theme_variant ≡ r.theme_variant)
      × (r.attribute ≡ some r.theme_variant)
      × (later.attribute ≡ r.attribute)
unfolding mount initial
run-mount s es =
    let (scheme, variant, shown) = run-IsKept (mount (initial s)) es (mount-IsKept (initial s)) in
    (scheme, variant, shown, ground arith)
