-- ===== src/Streams/Polling/Refinement.antt =====
-- What a polling client promises: it alternates between a pause and a fetch until it is stopped.
-- The client with its timers and flags implements that machine of three phases.
use clever_gate.Runs
use clever_gate.Runs.{run-matches}
use clever_gate.Prelude.{
  ℕ, suc, ◌≤◌, ◌≡◌, refl, Bool, true, false, Option, none, some, List, [], ◌∷◌, ◌++◌, any, nat_eq,
  arith, if◌then◌else◌, Bool-cases, inl, inr,
}
use clever_gate.Streams.Polling.{Client, Event, fires, settles, stop, step, run, create, remove}

pub data Phase : Type 0 where
  waiting fetching off : Phase

-- What the owner sees: the phase, how many fetches were begun and what was delivered.
pub record Spec {ℓ} (D : Type ℓ) : Type ℓ where
  pub phase : Phase
  pub fetches : ℕ
  pub delivered : List D

-- The pause ends, a fetch settles, or the owner stops the client, also from within `onData`.
pub data Move {ℓ} (D : Type ℓ) : Type ℓ where
  pause_ends : Move D
  fetch_ends : (outcome : Option D) (stops : Bool) → Move D
  owner_stops : Move D

module _ {ℓ} {D : Type ℓ} where
  -- The end of a fetch.
  abbrev pub ended : Option D → Bool → Spec D → Spec D
  ended none stops s = record s { phase = waiting }
  ended (some d) stops s = record s {
    phase = if stops then off else waiting;
    delivered = s.delivered ++ d ∷ [];
  }

  -- A move that the phase does not expect changes nothing.
  abbrev pub spec_move : Phase → Move D → Spec D → Spec D
  spec_move waiting pause_ends s = record s { phase = fetching; fetches = suc s.fetches }
  spec_move waiting (fetch_ends o b) s = s
  spec_move waiting owner_stops s = record s { phase = off }
  spec_move fetching pause_ends s = s
  spec_move fetching (fetch_ends o b) s = ended o b s
  spec_move fetching owner_stops s = record s { phase = off }
  spec_move off m s = s

  abbrev pub spec_step : Spec D → Move D → Spec D
  spec_step s m = spec_move s.phase m s

  abbrev pub spec_run : Spec D → List (Move D) → Spec D
  spec_run = Runs.run spec_step

  -- How the client's fields stand for a phase.
  abbrev pub Stands : Phase → Client D → Type 0
  Stands waiting c = (c.active ≡ true) × (c.pending ≡ c.timer ∷ []) × (c.in_flight ≡ 0)
  Stands fetching c = (c.active ≡ true) × (c.pending ≡ []) × (c.in_flight ≡ 1)
  Stands off c = (c.active ≡ false) × (c.pending ≡ []) × (c.in_flight ≤ 1)

  abbrev pub Implements : Client D → Spec D → Type ℓ
  Implements c s = Stands s.phase c × (c.fetches ≡ s.fetches) × (c.delivered ≡ s.delivered)

  -- The move that an event is for the owner: a timer that is not set is none.
  abbrev pub move_of : Client D → Event D → List (Move D)
  move_of c (fires id) = if any (λ j. nat_eq j id) c.pending then pause_ends ∷ [] else []
  move_of c (settles outcome stops) = fetch_ends outcome stops ∷ []
  move_of c stop = owner_stops ∷ []

  abbrev pub moves_of : Client D → List (Event D) → List (Move D)
  moves_of = Runs.moves_of step spec_step move_of

  step-Implements :
      (c : Client D) (p : Phase) (f : ℕ) (ds : List D) (e : Event D)
      → Implements c (record { phase = p; fetches = f; delivered = ds })
      → Implements
          (step c e)
          (spec_run (record { phase = p; fetches = f; delivered = ds }) (move_of c e))
  unfolding step Runs.run
  step-Implements c waiting f ds (fires id) ((a, p, i), n, d) =
      elim (Bool-cases (nat_eq c.timer id)) [
        | inl due ↦
            let hit : any (λ j. nat_eq j id) c.pending ≡ true = ground arith in
            let gone : remove id c.pending ≡ [] = ground arith in rw hit (ground arith)
        | inr other ↦
            let missed : any (λ j. nat_eq j id) c.pending ≡ false = ground arith in
            rw missed (ground arith)
      ]
  step-Implements c waiting f ds (settles o b) ((a, p, i), n, d) = ground arith
  step-Implements c waiting f ds stop ((a, p, i), n, d) = ground arith
  step-Implements c fetching f ds (fires id) ((a, p, i), n, d) = ground arith
  step-Implements c fetching f ds (settles none b) ((a, p, i), n, d) = ground arith
  step-Implements c fetching f ds (settles (some x) b) ((a, p, i), n, d) = ground arith
  step-Implements c fetching f ds stop ((a, p, i), n, d) = ground arith
  step-Implements c off f ds (fires id) ((a, p, i), n, d) = ground arith
  step-Implements c off f ds (settles none b) ((a, p, i), n, d) = ground arith
  step-Implements c off f ds (settles (some x) b) ((a, p, i), n, d) = ground arith
  step-Implements c off f ds stop ((a, p, i), n, d) = ground arith

-- The machine at the start.
abbrev pub spec_start {ℓ} : (D : Type ℓ) → Spec D
spec_start D = record { phase = waiting; fetches = 0; delivered = [] }

module _ {ℓ} {D : Type ℓ} where
  -- Whatever the browser and the owner do, a client stands in the phase that the machine of three
  -- phases reaches by the same moves, with as many fetches begun and the same data delivered: it
  -- waits with its one timer set, or fetches with no timer, or is off with no timer.
  pub run-Implements :
      (es : List (Event D))
      → Implements (run (create D) es) (spec_run (spec_start D) (moves_of (create D) es))
  unfolding create
  run-Implements es =
      run-matches step spec_step move_of Implements
        (λ c s e h. step-Implements c s.phase s.fetches s.delivered e h) (create D) (spec_start D)
        es ((refl, refl, refl), refl, refl)
