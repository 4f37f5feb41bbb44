-- ===== src/Background/Laws.antt =====
-- How much is drawn in a frame.
use clever_gate.Runs.{run-keeps}
use clever_gate.Prelude.{
  ℕ, suc, ◌+◌, ◌*◌, ◌≤◌, ◌≡◌, refl, ◌∙◌, ap, subst, String, List, [], ◌∷◌, length, length-append,
  map, arith, Bool-cases, inl, inr,
}
use clever_gate.Background.{
  Arithmetic, Particle, LineColor, Canvas, Event, frame, resized, ended, move, lines_from, plexus,
  draw, step, run, start, blank,
}

length-map : {A B : Type 0} (f : A → B) (xs : List A) → length (map f xs) ≡ length xs
length-map f [] = refl
length-map f (x ∷ xs) = ap suc (length-map f xs)

square : (n : ℕ) → suc n * suc n ≡ n * n + (n + n + 1)
square n = grind arith

module _ {Number : Type 0} (a : Arithmetic Number) (alpha : ℕ → Number) where
  length-lines_from :
      (color : LineColor) (p : Particle Number) (ps : List (Particle Number))
      → length (lines_from a alpha color p ps) ≤ length ps
  length-lines_from color p [] = omega arith
  length-lines_from color p (q ∷ qs) = ground (arith, length-lines_from color p qs)

  length-plexus :
      (color : LineColor) (ps : List (Particle Number))
      → 2 * length (plexus a alpha color ps) + length ps ≤ length ps * length ps
  unfolding plexus
  length-plexus color [] = omega arith
  length-plexus color (p ∷ ps) =
      let rest = length-plexus color ps in
      let own = length-lines_from color p ps in
      let both = length-append (lines_from a alpha color p ps) (plexus a alpha color ps) in
      let grown = square (length ps) in omega arith

  -- A frame's lines are fewer than its particles' pairs.
  abbrev pub IsBounded : ℕ → Canvas a → Type 0
  IsBounded n c = (length c.particles ≡ n) × (2 * length c.lines + n ≤ n * n)

  draw-IsBounded : (c : Canvas a) → IsBounded (length c.particles) (draw a alpha c)
  unfolding draw
  draw-IsBounded c =
      let moved = map (move a c.width c.height) c.particles in
      let same = length-map (move a c.width c.height) c.particles in
      (
        same,
        subst (λ n. 2 * length (plexus a alpha c.colors.line moved) + n ≤ n * n) same
            (length-plexus c.colors.line moved),
      )

  step-IsBounded :
      (n : ℕ) (c : Canvas a) (e : Event Number) → IsBounded n c → IsBounded n (step a alpha c e)
  unfolding step
  step-IsBounded n c frame (p, l) = elim (Bool-cases c.frame_due) [
    | inl due ↦ rw due (subst (λ k. IsBounded k (draw a alpha c)) p (draw-IsBounded c))
    | inr over ↦ rw over (p, l)
  ]
  step-IsBounded n c (resized w h) (p, l) = elim (Bool-cases c.listening) [
    | inl there ↦ rw there (p, l)
    | inr gone ↦ rw gone (p, l)
  ]
  step-IsBounded n c ended b = b

  run-IsBounded :
      (n : ℕ) (c : Canvas a) (es : List (Event Number))
      → IsBounded n c
      → IsBounded n (run a alpha c es)
  run-IsBounded n = run-keeps (step a alpha) (IsBounded n) (step-IsBounded n)

  start-IsBounded :
      (w h : Number) (ps : List (Particle Number)) (scheme variant : String)
      → IsBounded (length ps) (start a alpha w h ps scheme variant)
  unfolding start
  start-IsBounded w h ps scheme variant = draw-IsBounded (blank a alpha w h ps scheme variant)

  -- Whatever frames and resizes follow, the canvas keeps its 70 particles, and no frame strokes more
  -- than 2415 lines.
  run_lines :
      (w h : Number) (ps : List (Particle Number)) (scheme variant : String)
      (es : List (Event Number))
      → length ps ≡ 70
      → let c = run a alpha (start a alpha w h ps scheme variant) es in
        (length c.particles ≡ 70) × (length c.lines ≤ 2415)
  run_lines w h ps scheme variant es n =
      let (p, l) =
        run-IsBounded (length ps) (start a alpha w h ps scheme variant) es
          (start-IsBounded w h ps scheme variant) in
      let lines =
        subst
          (λ k.
            2 * length ((run a alpha (start a alpha w h ps scheme variant) es).lines) + k ≤ k * k)
          n l in
      (p ∙ n, omega arith)
