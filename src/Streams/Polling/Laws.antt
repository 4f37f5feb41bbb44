-- ===== src/Streams/Polling/Laws.antt =====
-- What holds of a polling client whatever the browser does.
use clever_gate.Runs.{run-keeps, run-leaves}
use clever_gate.Prelude.{
  ◌≤◌, ◌≡◌, refl, ◌∙◌, ◌⊎◌, inl, inr, true, false, none, some, List, [], ◌∷◌, arith,
}
use clever_gate.Streams.Polling.{Client, Event, fires, settles, stop, step, run, create, stopped}

module _ {ℓ} {D : Type ℓ} where
  -- Either nothing waits but at most one fetch, or the one timer that `stop` can clear.
  abbrev pub IsSingle : Client D → Type 0
  IsSingle c =
      ((c.pending ≡ []) × (c.in_flight ≤ 1))
      ⊎ ((c.pending ≡ c.timer ∷ []) × (c.in_flight ≡ 0) × (c.active ≡ true))

  pub step-IsSingle : (c : Client D) (e : Event D) → IsSingle c → IsSingle (step c e)
  unfolding step
  step-IsSingle c (fires id) (inl (p, f)) = inl (ground arith)
  step-IsSingle c (fires id) (inr (p, f, a)) = ground arith
  step-IsSingle c (settles none stops) (inl (p, f)) = ground arith
  step-IsSingle c (settles (some d) stops) (inl (p, f)) = ground arith
  step-IsSingle c (settles none stops) (inr (p, f, a)) = ground arith
  step-IsSingle c (settles (some d) stops) (inr (p, f, a)) = ground arith
  step-IsSingle c stop (inl (p, f)) = ground arith
  step-IsSingle c stop (inr (p, f, a)) = ground arith

  pub run-IsSingle : (c : Client D) (es : List (Event D)) → IsSingle c → IsSingle (run c es)
  run-IsSingle = run-keeps step IsSingle step-IsSingle

  -- Nothing more is fetched or delivered.
  abbrev pub Rests : Client D → Client D → Type ℓ
  Rests c d = (d.fetches ≡ c.fetches) × (d.delivered ≡ c.delivered)

  -- A stopped client without a timer.
  abbrev pub IsIdle : Client D → Type 0
  IsIdle c = (c.active ≡ false) × (c.pending ≡ [])

  pub step-IsIdle : (c : Client D) (e : Event D) → IsIdle c → IsIdle (step c e) × Rests c (step c e)
  unfolding step
  step-IsIdle c (fires id) (a, p) = ground arith
  step-IsIdle c (settles none stops) (a, p) = ground arith
  step-IsIdle c (settles (some d) stops) (a, p) = ground arith
  step-IsIdle c stop (a, p) = ground arith

  run-IsIdle :
      (c : Client D) (es : List (Event D)) → IsIdle c → IsIdle (run c es) × Rests c (run c es)
  run-IsIdle =
      run-leaves step IsIdle Rests (λ c. (refl, refl)) (λ c d e (f, l) (f', l'). (f' ∙ f, l' ∙ l))
        step-IsIdle

  stopped-IsIdle : (c : Client D) → IsSingle c → IsIdle (stopped c)
  stopped-IsIdle c (inl (p, f)) = ground arith
  stopped-IsIdle c (inr (p, f, a)) = ground arith

  pub stop-IsIdle : (c : Client D) → IsSingle c → IsIdle (step c stop)
  unfolding step
  stop-IsIdle = stopped-IsIdle

  pub stop-fetches : (c : Client D) → (step c stop).fetches ≡ c.fetches
  unfolding step
  stop-fetches c = refl

  -- At any time at most one thing is due: the timer that `stop` would clear, or a fetch under way.
  pub create-run-IsSingle : (es : List (Event D)) → IsSingle (run (create D) es)
  unfolding create
  create-run-IsSingle es = run-IsSingle (create D) es (inr (refl, refl, refl))

  -- Once stopped, a client fetches nothing more, tells its owner nothing more and sets no timer,
  -- not even when a fetch that was under way settles.
  pub run_after_stop :
      (before after : List (Event D))
      → let c = run (create D) before in
        let d = run (step c stop) after in
        (d.fetches ≡ c.fetches) × (d.delivered ≡ c.delivered) × (d.pending ≡ [])
  unfolding step
  run_after_stop before after =
      let c = run (create D) before in
      let ((off, none_set), (f, d)) =
        run-IsIdle (stopped c) after (stopped-IsIdle c (create-run-IsSingle before)) in
      (f, d, none_set)
