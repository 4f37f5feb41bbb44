-- ===== src/Providers/Info/Laws.antt =====
-- What the info drawer shows, whatever the order of the answers.
use clever_gate.Runs
use clever_gate.Runs.{run-keeps}
use clever_gate.Prelude.{
  ℕ, ◌≡◌, refl, ◌∙◌, ap, ◌⊎◌, inl, inr, String, Bool, true, false, Option, none, some, List, [],
  ◌∷◌, length, any, nat_eq, Bool-cases, if◌then◌else◌,
}
use clever_gate.Types.{Provider, ProviderInfo}
use clever_gate.Api.{Result, ok, err, message}
use clever_gate.Providers.Info.{Drawer, Event, retarget, settled, step, run, initial, answered}

module _ {Money : Type 0} where
  -- While the drawer is loading, an answer is still to come.
  abbrev IsWaiting : Drawer Money → Type 0
  IsWaiting d = (d.loading ≡ false) ⊎ ((k : ℕ) × (ks : List ℕ) × (d.pending ≡ k ∷ ks))

  step-IsWaiting : (d : Drawer Money) (e : Event Money) → IsWaiting d → IsWaiting (step d e)
  unfolding step
  step-IsWaiting d (retarget none) w = w
  step-IsWaiting d (retarget (some p)) w = inr (length d.paths, d.pending, refl)
  step-IsWaiting d (settled id (ok i)) w = elim (Bool-cases (any (λ j. nat_eq j id) d.pending)) [
    | inl due ↦ rw due (inl refl)
    | inr answered_before ↦ rw answered_before w
  ]
  step-IsWaiting d (settled id (err e)) w = elim (Bool-cases (any (λ j. nat_eq j id) d.pending)) [
    | inl due ↦ rw due (inl refl)
    | inr answered_before ↦ rw answered_before w
  ]

  run-IsWaiting : (d : Drawer Money) (es : List (Event Money)) → IsWaiting d → IsWaiting (run d es)
  run-IsWaiting = run-keeps step IsWaiting step-IsWaiting

  waits_for_none : (d : Drawer Money) → IsWaiting d → d.pending ≡ [] → d.loading ≡ false
  waits_for_none d (inl h) e = h
  waits_for_none d (inr (k, ks, h)) e = cc

  -- Whatever is opened and closed meanwhile: once no answer is to come any more, the drawer has
  -- stopped loading.
  run-loading :
      (es : List (Event Money))
      → (run (initial Money) es).pending ≡ []
      → (run (initial Money) es).loading ≡ false
  unfolding initial
  run-loading es h =
      waits_for_none (run (initial Money) es) (run-IsWaiting (initial Money) es (inl refl)) h

  -- The answers that arrive, each with the number of its request.
  abbrev pub answers : List (ℕ × Result (ProviderInfo Money)) → List (Event Money)
  answers [] = []
  answers ((id, r) ∷ rs) = settled id r ∷ answers rs

  -- The first answer to a request.
  abbrev pub answer_to :
      ℕ → List (ℕ × Result (ProviderInfo Money)) → Option (Result (ProviderInfo Money))
  answer_to n [] = none
  answer_to n ((id, r) ∷ rs) = let later = answer_to n rs in if nat_eq n id then some r else later

  -- What the drawer is to have, from what it had and the answer to its own request.
  abbrev pub expected :
      Option (ProviderInfo Money)
      → Option (Result (ProviderInfo Money))
      → Option (ProviderInfo Money) × Bool × String
  expected before none = (before, true, "")
  expected before (some (ok i)) = (some i, false, "")
  expected before (some (err e)) = (before, false, message e)

  abbrev pub shown : Drawer Money → Option (ProviderInfo Money) × Bool × String
  shown d = (d.info, d.loading, d.error_text)

  step_unasked :
      (d : Drawer Money) (id : ℕ) (r : Result (ProviderInfo Money))
      → d.pending ≡ []
      → step d (settled id r) ≡ d
  unfolding step
  step_unasked d id r h = simp (h)

  run_unasked :
      (d : Drawer Money) (rs : List (ℕ × Result (ProviderInfo Money)))
      → d.pending ≡ []
      → run d (answers rs) ≡ d
  unfolding Runs.run
  run_unasked d [] h = refl
  run_unasked d ((id, r) ∷ rs) h =
      ap (λ x. run x (answers rs)) (step_unasked d id r h) ∙ run_unasked d rs h

  step_due :
      (d : Drawer Money) (n id : ℕ) (r : Result (ProviderInfo Money))
      → d.pending ≡ n ∷ []
      → nat_eq n id ≡ true
      → step d (settled id r) ≡ answered r (record d { pending = [] })
  unfolding step
  step_due d n id r h same = rw (h, same)

  step_other :
      (d : Drawer Money) (n id : ℕ) (r : Result (ProviderInfo Money))
      → d.pending ≡ n ∷ []
      → nat_eq n id ≡ false
      → step d (settled id r) ≡ d
  unfolding step
  step_other d n id r h other = rw (h, other)

  answered_alone :
      (d : Drawer Money) (r : Result (ProviderInfo Money))
      (rs : List (ℕ × Result (ProviderInfo Money)))
      → shown d ≡ (d.info, true, "")
      → shown (run (answered r (record d { pending = [] })) (answers rs)) ≡ expected d.info (some r)
  answered_alone d (ok i) rs s =
      ap shown (run_unasked (answered (ok i) (record d { pending = [] })) rs refl)
      ∙ ap (λ t. (some i, false, t.2)) s
  answered_alone d (err e) rs s =
      ap shown (run_unasked (answered (err e) (record d { pending = [] })) rs refl)

  run_asked :
      (d : Drawer Money) (n : ℕ) (rs : List (ℕ × Result (ProviderInfo Money)))
      → d.pending ≡ n ∷ []
      → shown d ≡ (d.info, true, "")
      → shown (run d (answers rs)) ≡ expected d.info (answer_to n rs)
  unfolding Runs.run
  run_asked d n [] h s = s
  run_asked d n ((id, r) ∷ rs) h s = elim (Bool-cases (nat_eq n id)) [
    | inl same ↦
        rw same (
          ap (λ x. shown (run x (answers rs))) (step_due d n id r h same) ∙ answered_alone d r rs s)
    | inr other ↦
        rw other (
          ap (λ x. shown (run x (answers rs))) (step_other d n id r h other) ∙ run_asked d n rs h s)
  ]

  -- Where a provider is opened while no older answer is to come, the drawer loads until the first
  -- answer to its own request arrives, and then has that answer's data, or its error and the data
  -- that it had; no other answer changes this.
  pub run-answers :
      (es : List (Event Money)) (p : Provider) (rs : List (ℕ × Result (ProviderInfo Money)))
      → (run (initial Money) es).pending ≡ []
      → let d = run (initial Money) es in
        shown (run (step d (retarget (some p))) (answers rs))
        ≡ expected d.info (answer_to (length d.paths) rs)
  unfolding step
  run-answers es p rs h =
      let d = run (initial Money) es in
      run_asked (step d (retarget (some p))) (length d.paths) rs (ap (λ q. length d.paths ∷ q) h)
        refl
