-- ===== src/Theme/Palettes.antt =====
-- frontend/theme/theme.ts: the palettes, and the one that `getTheme` gives a variant.
use text.Mathlib.Text.{◌==◌}
use clever_gate.Prelude.{◌≡◌, refl, String, List, [], ◌∷◌, if◌then◌else◌, keep_if, length}
use clever_gate.Theme.{
  ThemeVariant, ocean, forest, warm, sage, lavender, teal, sunset, olive, cyberpunk, earth, cherry,
  mint, vibrant, noir, aqua, variant_text,
}
use clever_gate.Settings.{themes}

unfoldable pub ocean_brand : List String
ocean_brand =
    "#f3f7fb" ∷ "#e1ecf7" ∷ "#dbe2ef" ∷ "#a2c4df" ∷ "#72a2cf" ∷ "#4d83be" ∷ "#3f72af" ∷ "#315b8f"
    ∷ "#224269" ∷ "#112d4e" ∷ []

unfoldable pub forest_brand : List String
forest_brand =
    "#f1f8f6" ∷ "#e1f1ec" ∷ "#89d7b7" ∷ "#94cdc0" ∷ "#6bbfa0" ∷ "#4ea58b" ∷ "#428475" ∷ "#366b5f"
    ∷ "#285046" ∷ "#1a312c" ∷ []

unfoldable pub warm_brand : List String
warm_brand =
    "#fff8f0" ∷ "#f7eadf" ∷ "#e8cca7" ∷ "#d3b18f" ∷ "#c08552" ∷ "#a66f47" ∷ "#8c5a3c" ∷ "#73482e"
    ∷ "#5d3a25" ∷ "#4b2e2b" ∷ []

unfoldable pub sage_brand : List String
sage_brand =
    "#f2f5ee" ∷ "#e2e9da" ∷ "#c5d3b6" ∷ "#9cb080" ∷ "#7d9770" ∷ "#618764" ∷ "#497052" ∷ "#2b5748"
    ∷ "#1c372e" ∷ "#273338" ∷ []

unfoldable pub lavender_brand : List String
lavender_brand =
    "#eef2ff" ∷ "#e0e7ff" ∷ "#c7d2fe" ∷ "#a5b4fc" ∷ "#818cf8" ∷ "#6366f1" ∷ "#4f46e5" ∷ "#4338ca"
    ∷ "#3730a3" ∷ "#1e1b4b" ∷ []

unfoldable pub teal_brand : List String
teal_brand =
    "#fff3e0" ∷ "#ffe0b2" ∷ "#ffcc80" ∷ "#80cbc4" ∷ "#4db6ac" ∷ "#26a69a" ∷ "#00897b" ∷ "#00695c"
    ∷ "#004d40" ∷ "#1c2d2d" ∷ []

unfoldable pub sunset_brand : List String
sunset_brand =
    "#fffdd0" ∷ "#ffe082" ∷ "#ffb74d" ∷ "#ffa726" ∷ "#f57c00" ∷ "#e65100" ∷ "#80d8ff" ∷ "#40c4ff"
    ∷ "#00b0ff" ∷ "#2e1c1a" ∷ []

unfoldable pub olive_brand : List String
olive_brand =
    "#fefae0" ∷ "#f6eed0" ∷ "#dda15e" ∷ "#bc6c25" ∷ "#8a5a22" ∷ "#606c38" ∷ "#4f5d2f" ∷ "#3e4a24"
    ∷ "#283618" ∷ "#3c1a1a" ∷ []

unfoldable pub cyberpunk_brand : List String
cyberpunk_brand =
    "#fff9c4" ∷ "#f8bbd0" ∷ "#f48fb1" ∷ "#f06292" ∷ "#ec407a" ∷ "#e91e63" ∷ "#d81b60" ∷ "#c2185b"
    ∷ "#8e24aa" ∷ "#2a0835" ∷ []

unfoldable pub earth_brand : List String
earth_brand =
    "#f4f1de" ∷ "#f2ebd9" ∷ "#e07a5f" ∷ "#c46a52" ∷ "#81b29a" ∷ "#6ea58a" ∷ "#588b72" ∷ "#3d405b"
    ∷ "#2c2e43" ∷ "#1b1c28" ∷ []

unfoldable pub cherry_brand : List String
cherry_brand =
    "#ffeb3b" ∷ "#ffd54f" ∷ "#ff7043" ∷ "#ff5252" ∷ "#e53935" ∷ "#c62828" ∷ "#b71c1c" ∷ "#880e4f"
    ∷ "#610b24" ∷ "#2c0510" ∷ []

unfoldable pub mint_brand : List String
mint_brand =
    "#fff9f0" ∷ "#e8f5e9" ∷ "#a7ffeb" ∷ "#64ffda" ∷ "#1de9b6" ∷ "#00bfa5" ∷ "#1b3b36" ∷ "#142d29"
    ∷ "#0e201d" ∷ "#081210" ∷ []

unfoldable pub vibrant_brand : List String
vibrant_brand =
    "#ffeb3b" ∷ "#00e676" ∷ "#2979ff" ∷ "#2962ff" ∷ "#e91e63" ∷ "#d81b60" ∷ "#c2185b" ∷ "#880e4f"
    ∷ "#1a237e" ∷ "#0d0f2a" ∷ []

unfoldable pub noir_brand : List String
noir_brand =
    "#f5f5f5" ∷ "#e0e0e0" ∷ "#c2185b" ∷ "#9e9e9e" ∷ "#757575" ∷ "#616161" ∷ "#424242" ∷ "#212121"
    ∷ "#111111" ∷ "#000000" ∷ []

unfoldable pub aqua_brand : List String
aqua_brand =
    "#ffe082" ∷ "#80f1d3" ∷ "#40e0d0" ∷ "#008080" ∷ "#00695c" ∷ "#004d40" ∷ "#0b171e" ∷ "#071015"
    ∷ "#030608" ∷ "#000000" ∷ []

-- The colours that `getTheme(variant)` calls "brand".
unfoldable pub brand_colors : String → List String
unfolding ocean_brand forest_brand warm_brand sage_brand lavender_brand teal_brand sunset_brand
    olive_brand cyberpunk_brand earth_brand cherry_brand mint_brand vibrant_brand noir_brand
    aqua_brand
brand_colors variant =
    if variant == "ocean"
    then ocean_brand
    else if variant == "forest"
    then forest_brand
    else if variant == "warm"
    then warm_brand
    else if variant == "sage"
    then sage_brand
    else if variant == "lavender"
    then lavender_brand
    else if variant == "teal"
    then teal_brand
    else if variant == "sunset"
    then sunset_brand
    else if variant == "olive"
    then olive_brand
    else if variant == "cyberpunk"
    then cyberpunk_brand
    else if variant == "earth"
    then earth_brand
    else if variant == "cherry"
    then cherry_brand
    else if variant == "mint"
    then mint_brand
    else if variant == "vibrant"
    then vibrant_brand
    else if variant == "noir"
    then noir_brand
    else aqua_brand

-- Each variant has a palette of ten shades, and the settings page offers it exactly once.
pub brand_colors-offered :
    (v : ThemeVariant)
    → (length (brand_colors (variant_text v)) ≡ 10)
      × (length (keep_if (λ t. t.key == variant_text v) themes) ≡ 1)
unfolding brand_colors variant_text themes
brand_colors-offered ocean = (refl, refl)
brand_colors-offered forest = (refl, refl)
brand_colors-offered warm = (refl, refl)
brand_colors-offered sage = (refl, refl)
brand_colors-offered lavender = (refl, refl)
brand_colors-offered teal = (refl, refl)
brand_colors-offered sunset = (refl, refl)
brand_colors-offered olive = (refl, refl)
brand_colors-offered cyberpunk = (refl, refl)
brand_colors-offered earth = (refl, refl)
brand_colors-offered cherry = (refl, refl)
brand_colors-offered mint = (refl, refl)
brand_colors-offered vibrant = (refl, refl)
brand_colors-offered noir = (refl, refl)
brand_colors-offered aqua = (refl, refl)
