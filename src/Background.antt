-- ===== src/Background.antt =====
-- frontend/components/PlexusBackground.tsx: the particles behind the pages, their colours and the
-- lines between those that are close. Places are numbers of a type of their own, with what the code
-- computes of them; the particles at first are given, since they are random.
pub mod Laws
use text.Mathlib.Text.{◌==◌}
use clever_gate.Runs
use clever_gate.Prelude.{
  ℕ, suc, String, Bool, true, false, ◌||◌, List, [], ◌∷◌, ◌++◌, ◌<>◌, map, if◌then◌else◌, Option,
  none, some,
}
use clever_gate.Show.{show_nat}

-- `hundred_twenty` is the distance up to which particles are joined, `fade a d` is
-- `a * (1 - d / 120)`, and `text` is what a template writes for a number.
pub record Arithmetic (Number : Type 0) : Type 0 where
  pub zero : Number
  pub hundred_twenty : Number
  pub plus : Number → Number → Number
  pub minus : Number → Number → Number
  pub times : Number → Number → Number
  pub negate : Number → Number
  pub sqrt : Number → Number
  pub less : Number → Number → Bool
  pub fade : Number → Number → Number
  pub text : Number → String

pub record Particle (Number : Type 0) : Type 0 where
  pub x : Number
  pub y : Number
  pub vx : Number
  pub vy : Number
  pub radius : Number

-- The colour of the lines; a base alpha is given in hundredths.
pub record LineColor : Type 0 where
  pub r : ℕ
  pub g : ℕ
  pub b : ℕ
  pub base_alpha : ℕ

pub record Colors : Type 0 where
  pub particle : String
  pub line : LineColor

abbrev line_color : ℕ → ℕ → ℕ → ℕ → LineColor
line_color r g b base_alpha = record { r = r; g = g; b = b; base_alpha = base_alpha }

unfoldable pub get_colors : (color_scheme theme_variant : String) → Colors
get_colors color_scheme theme_variant =
    let is_dark = color_scheme == "dark" in
    if theme_variant == "forest"
    then record {
      particle = if is_dark then "rgba(137, 215, 183, 0.45)" else "rgba(66, 132, 117, 0.25)";
      line = if is_dark then line_color 137 215 183 14 else line_color 66 132 117 8;
    }
    else record {
      particle = if is_dark then "rgba(162, 196, 223, 0.4)" else "rgba(63, 114, 175, 0.25)";
      line = if is_dark then line_color 162 196 223 14 else line_color 63 114 175 8;
    }

-- A line as it is stroked.
pub record Line (Number : Type 0) : Type 0 where
  pub from : Number × Number
  pub to : Number × Number
  pub stroke : String

module _ {Number : Type 0} (a : Arithmetic Number) where
  -- A velocity turns where the new place is outside of the canvas.
  abbrev turned : (place limit velocity : Number) → Number
  turned place limit velocity =
      if a.less place a.zero || a.less limit place then a.negate velocity else velocity

  abbrev pub move : (width height : Number) → Particle Number → Particle Number
  move width height p =
      let x = a.plus p.x p.vx in
      let y = a.plus p.y p.vy in
      record p { x = x; y = y; vx = turned x width p.vx; vy = turned y height p.vy }

  abbrev pub distance : Particle Number → Particle Number → Number
  distance p q =
      let dx = a.minus p.x q.x in
      let dy = a.minus p.y q.y in a.sqrt (a.plus (a.times dx dx) (a.times dy dy))

  module _ (alpha : ℕ → Number) (color : LineColor) where
    abbrev stroke_of : Number → String
    stroke_of dist =
        "rgba("
        <> show_nat color.r
        <> ", "
        <> show_nat color.g
        <> ", "
        <> show_nat color.b
        <> ", "
        <> a.text (a.fade (alpha color.base_alpha) dist)
        <> ")"

    -- The inner loop: the lines from `p` to those after it.
    abbrev pub lines_from : Particle Number → List (Particle Number) → List (Line Number)
    lines_from p [] = []
    lines_from p (q ∷ qs) =
        let rest = lines_from p qs in
        let dist = distance p q in
        if a.less dist a.hundred_twenty
        then record { from = (p.x, p.y); to = (q.x, q.y); stroke = stroke_of dist } ∷ rest
        else rest

    -- The outer loop.
    unfoldable pub plexus : List (Particle Number) → List (Line Number)
    plexus [] = []
    plexus (p ∷ ps) = lines_from p ps ++ plexus ps

  -- The effect's canvas: the particles, whether a next frame is asked for, and how many frames were
  -- drawn, with the lines of the last one.
  pub record Canvas : Type 0 where
    pub width : Number
    pub height : Number
    pub particles : List (Particle Number)
    pub colors : Colors
    pub listening : Bool
    pub frame_due : Bool
    pub frames : ℕ
    pub lines : List (Line Number)

pub data Event (Number : Type 0) : Type 0 where
  frame : Event Number
  resized : (width height : Number) → Event Number
  ended : Event Number

module _ {Number : Type 0} (a : Arithmetic Number) (alpha : ℕ → Number) where
  unfoldable pub draw : Canvas a → Canvas a
  unfolding plexus
  draw c =
      let moved = map (move a c.width c.height) c.particles in
      record c {
        particles = moved;
        frame_due = true;
        frames = suc c.frames;
        lines = plexus a alpha c.colors.line moved;
      }

  unfoldable pub step : Canvas a → Event Number → Canvas a
  unfolding draw
  step c frame = let drawn = draw c in if c.frame_due then drawn else c
  step c (resized w h) = if c.listening then record c { width = w; height = h } else c
  step c ended = record c { listening = false; frame_due = false }

  abbrev pub run : Canvas a → List (Event Number) → Canvas a
  run = Runs.run step

  -- The canvas before its first frame.
  abbrev pub blank :
      (width height : Number)
      → List (Particle Number)
      → (color_scheme theme_variant : String) → Canvas a
  blank width height particles color_scheme theme_variant = record {
    width = width;
    height = height;
    particles = particles;
    colors = get_colors color_scheme theme_variant;
    listening = true;
    frame_due = false;
    frames = 0;
    lines = [];
  }

  -- The effect of a change of the scheme or the variant: new particles, and a first frame.
  unfoldable pub start :
      (width height : Number)
      → List (Particle Number)
      → (color_scheme theme_variant : String) → Canvas a
  unfolding draw
  start width height particles color_scheme theme_variant =
      draw (blank width height particles color_scheme theme_variant)
