-- ===== src/Runs.antt =====
-- Runs of a state machine: a state and the events that follow. Each part of the panel whose code is
-- cut at its `await`s is such a machine, with a `step` of its own.
use clever_gate.Prelude.{List, [], ◌∷◌, ◌++◌, ◌≡◌, refl, Option, none, some}

module _ {ℓ κ} {S : Type ℓ} {E : Type κ} (step : S → E → S) where
  unfoldable pub run : S → List E → S
  run s [] = s
  run s (e ∷ es) = run (step s e) es

  pub run-append : (s : S) (es fs : List E) → run s (es ++ fs) ≡ run (run s es) fs
  unfolding run
  run-append s [] fs = refl
  run-append s (e ∷ es) fs = run-append (step s e) es fs

  -- What each event keeps, a run keeps.
  pub run-keeps {μ} :
      (P : S → Type μ)
      → ((s : S) (e : E) → P s → P (step s e))
      → (s : S) (es : List E) → P s
      → P (run s es)
  unfolding run
  run-keeps P keeps s [] p = p
  run-keeps P keeps s (e ∷ es) p = run-keeps P keeps (step s e) es (keeps s e p)

  -- Each of the events is of some kind.
  abbrev pub All {μ} : (E → Type μ) → List E → Type μ
  All G [] = Unit
  All G (e ∷ es) = G e × All G es

  -- What each event of a kind keeps, a run of such events keeps.
  pub run-keeps_while {μ ν} :
      (G : E → Type μ) (P : S → Type ν)
      → ((s : S) (e : E) → G e → P s → P (step s e))
      → (s : S) (es : List E) → All G es
      → P s
      → P (run s es)
  unfolding run
  run-keeps_while G P keeps s [] g p = p
  run-keeps_while G P keeps s (e ∷ es) (g, gs) p =
      run-keeps_while G P keeps (step s e) es gs (keeps s e g p)

  -- Each of the events fits the state in which it comes.
  abbrev pub Along {μ} : (S → E → Type μ) → S → List E → Type μ
  Along G s [] = Unit
  Along G s (e ∷ es) = G s e × Along G (step s e) es

  -- What each event that fits keeps, a run of such events keeps.
  pub run-keeps_along {μ ν} :
      (G : S → E → Type μ) (P : S → Type ν)
      → ((s : S) (e : E) → G s e → P s → P (step s e))
      → (s : S) (es : List E) → Along G s es
      → P s
      → P (run s es)
  unfolding run
  run-keeps_along G P keeps s [] g p = p
  run-keeps_along G P keeps s (e ∷ es) (g, gs) p =
      run-keeps_along G P keeps (step s e) es gs (keeps s e g p)

  -- What each event leaves of a state, by a relation that goes on from event to event.
  pub run-leaves {μ ν} :
      (P : S → Type μ) (R : S → S → Type ν)
      → ((s : S) → R s s)
      → ((s t u : S) → R s t → R t u → R s u)
      → ((s : S) (e : E) → P s → P (step s e) × R s (step s e))
      → (s : S) (es : List E) → P s
      → P (run s es) × R s (run s es)
  unfolding run
  run-leaves P R stays goes_on leaves s [] p = (p, stays s)
  run-leaves P R stays goes_on leaves s (e ∷ es) p =
      let (q, r) = leaves s e p in
      let (q', r') = run-leaves P R stays goes_on leaves (step s e) es q in
      (q', goes_on s (step s e) (run (step s e) es) r r')

-- The last value that the events give to a field, or the one that it had.
abbrev pub last_given {ℓ κ} : {A : Type ℓ} {E : Type κ} → (E → Option A) → A → List E → A
last_given given before [] = before
last_given given before (e ∷ es) = elim (given e) [
  | none ↦ last_given given before es
  | some a ↦ last_given given a es
]

-- A machine whose events are moves of another one, none or several at a time.
module _ {ℓ κ ℓ' κ'} {S : Type ℓ} {E : Type κ} {T : Type ℓ'} {M : Type κ'} (step : S → E → S)
    (move : T → M → T) (moves : S → E → List M) where
  unfoldable pub moves_of : S → List E → List M
  moves_of s [] = []
  moves_of s (e ∷ es) = moves s e ++ moves_of (step s e) es

  -- Where each event is matched by its moves, a run is.
  pub run-matches {μ} :
      (R : S → T → Type μ)
      → ((s : S) (t : T) (e : E) → R s t → R (step s e) (run move t (moves s e)))
      → (s : S) (t : T) (es : List E) → R s t
      → R (run step s es) (run move t (moves_of s es))
  unfolding run moves_of
  run-matches R matches s t [] r = r
  run-matches R matches s t (e ∷ es) r =
      rw (run-append move t (moves s e) (moves_of (step s e) es))
        (run-matches R matches (step s e) (run move t (moves s e)) es (matches s t e r))
