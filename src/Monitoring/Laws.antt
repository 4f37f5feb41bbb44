-- ===== src/Monitoring/Laws.antt =====
-- The page has asked for what its controls say.
use text.Mathlib.Text.{◌==◌}
use clever_gate.Runs.{Along, run-keeps, run-keeps_along}
use clever_gate.Types.{RequestLog}
use clever_gate.Prelude.{
  text_tests, ℕ, ◌++◌, ◌⊎◌, subst, sym, ap, String, false, Option, ◌&&◌, some, none, List, [], ◌∷◌,
  ◌≡◌, refl, ◌∙◌, Bool-cases, inl, inr, arith, nat_eq,
}
use clever_gate.Monitoring.{
  Page, Event, settle, filter_typed, page_chosen, load_settled, request_path, load, change, step,
  run, initial,
}

module _ (encode : String → String) {Money : Type 0} where
  -- The newest request is that of the page and the filter that are set.
  abbrev pub IsCurrent : Page Money → Type 0
  IsCurrent p =
      (older : List String) × (p.requests ≡ request_path encode p.page p.model_filter ∷ older)

  change-IsCurrent :
      (n : ℕ) (s : String) (p : Page Money) → IsCurrent p → IsCurrent (change encode n s p)
  unfolding load
  change-IsCurrent n s p (older, h) = elim (Bool-cases (nat_eq n p.page && (s == p.model_filter))) [
    | inl same ↦ rw same (older, grind text_tests)
    | inr other ↦ rw other (p.requests, refl)
  ]

  step-IsCurrent : (p : Page Money) (e : Event Money) → IsCurrent p → IsCurrent (step encode p e)
  unfolding step
  step-IsCurrent p (filter_typed s) h = change-IsCurrent 1 s p h
  step-IsCurrent p (page_chosen n) h = change-IsCurrent n p.model_filter p h
  step-IsCurrent p (load_settled which none) h = ground arith
  step-IsCurrent p (load_settled which (some r)) h = ground arith

  -- Whatever the user does and whenever loads settle, the newest request is the one for the page
  -- and the filter that are set.
  run-IsCurrent : (es : List (Event Money)) → IsCurrent (run encode (initial encode Money) es)
  unfolding initial load
  run-IsCurrent es =
      run-keeps (step encode) IsCurrent step-IsCurrent (initial encode Money) es ([], refl)

  -- What the page and the filter ask for.
  abbrev pub current : Page Money → String
  current p = request_path encode p.page p.model_filter

  -- The server, which answers a path always alike; none where the load fails.
  module _ (serve : String → Option (List (RequestLog Money) × ℕ)) where
    -- An answer comes to the oldest request that has none, and is the server's.
    abbrev pub IsInOrder : Page Money → Event Money → Type 0
    IsInOrder p (load_settled which r) =
        (which ≡ 0)
        × ((path : String) × (rest : List String) × (p.pending ≡ path ∷ rest) × (r ≡ serve path))
    IsInOrder p e = Unit

    -- The rows and their number are those of an answer, where it has any.
    abbrev Shows : Option (List (RequestLog Money) × ℕ) → Page Money → Type 0
    Shows none p = Unit
    Shows (some (items, total)) p = (p.logs ≡ items) × (p.total ≡ total)

    -- The newest request waits for its answer, or its answer is shown.
    abbrev IsServed : Page Money → Type 0
    IsServed p =
        ((older : List String) × (p.pending ≡ older ++ current p ∷ []))
        ⊎ ((p.pending ≡ []) × (p.loading ≡ false) × Shows (serve (current p)) p)

    change-IsServed :
        (n : ℕ) (s : String) (p : Page Money) → IsServed p → IsServed (change encode n s p)
    unfolding load
    change-IsServed n s p h = elim (Bool-cases (nat_eq n p.page && (s == p.model_filter))) [
      | inr other ↦ rw other (inl (p.pending, refl))
      | inl same ↦
          let page_kept : p.page ≡ n = ground arith in
          let filter_kept : p.model_filter ≡ s = grind text_tests in
          rw same (
            subst (λ k. IsServed (record p { page = k; model_filter = s })) page_kept
              (subst (λ t. IsServed (record p { model_filter = t })) filter_kept h))
    ]

    settle-Shows :
        (r : Option (List (RequestLog Money) × ℕ)) (p : Page Money)
        → ((settle encode r p).loading ≡ false) × Shows r (settle encode r p)
    settle-Shows none p = (refl, tt)
    settle-Shows (some (items, total)) p = (refl, (refl, refl))

    settle-current :
        (r : Option (List (RequestLog Money) × ℕ)) (p : Page Money)
        → (current (settle encode r p) ≡ current p) × ((settle encode r p).pending ≡ p.pending)
    settle-current none p = (refl, refl)
    settle-current (some (items, total)) p = (refl, refl)

    -- The oldest request has got its answer.
    settled-IsServed :
        (r : Option (List (RequestLog Money) × ℕ)) (older : List String) (path : String)
        (rest : List String) (p : Page Money)
        → older ++ current p ∷ [] ≡ path ∷ rest
        → r ≡ serve path
        → IsServed (settle encode r (record p { pending = rest }))
    settled-IsServed r [] path rest p e a =
        let q = settle encode r (record p { pending = rest }) in
        let (same, left) = settle-current r (record p { pending = rest }) in
        let (over, shown) = settle-Shows r (record p { pending = rest }) in
        let last : rest ≡ [] = cc in
        let newest : path ≡ current p = cc in
        inr (left ∙ last, over, subst (λ o. Shows o q) (a ∙ ap serve (newest ∙ sym same)) shown)
    settled-IsServed r (x ∷ xs) path rest p e a =
        let (same, left) = settle-current r (record p { pending = rest }) in
        let others : rest ≡ xs ++ current p ∷ [] = cc in
        inl (xs, left ∙ others ∙ ap (λ c. xs ++ c ∷ []) (sym same))

    first_answered :
        (which : ℕ) (r : Option (List (RequestLog Money) × ℕ)) (path : String) (rest : List String)
        (p : Page Money)
        → which ≡ 0
        → p.pending ≡ path ∷ rest
        → step encode p (load_settled which r) ≡ settle encode r (record p { pending = rest })
    unfolding step
    first_answered which r path rest p first oldest = ground arith

    step-IsServed :
        (p : Page Money) (e : Event Money) → IsInOrder p e → IsServed p → IsServed (step encode p e)
    unfolding step
    step-IsServed p (filter_typed s) g h = change-IsServed 1 s p h
    step-IsServed p (page_chosen n) g h = change-IsServed n p.model_filter p h
    step-IsServed p (load_settled which r) (first, (path, rest, oldest, answer))
          (inl (older, waits)) =
        subst IsServed (sym (first_answered which r path rest p first oldest))
          (settled-IsServed r older path rest p (sym waits ∙ oldest) answer)
    step-IsServed p (load_settled which r) (first, (path, rest, oldest, answer))
          (inr (idle, over, shown)) =
        let e : path ∷ rest ≡ [] = sym oldest ∙ idle in absurd (ground arith)

    shows_answer :
        (items : List (RequestLog Money)) (total : ℕ) (p : Page Money)
        → p.pending ≡ []
        → serve (current p) ≡ some (items, total)
        → IsServed p
        → (p.loading ≡ false) × (p.logs ≡ items) × (p.total ≡ total)
    shows_answer items total p idle answer (inl ([], waits)) =
        let e : current p ∷ [] ≡ [] = sym waits ∙ idle in absurd (ground arith)
    shows_answer items total p idle answer (inl (x ∷ xs, waits)) =
        let e : x ∷ (xs ++ current p ∷ []) ≡ [] = sym waits ∙ idle in absurd (ground arith)
    shows_answer items total p idle answer (inr (none_due, over, shown)) =
        let (l, t) = subst (λ o. Shows o p) answer shown in (over, l, t)

    -- Where the answers come in the order of their requests, and the server answers a path always
    -- alike: once no answer is due, the page has stopped loading, and shows the server's answer
    -- for the page and the filter that are set, unless that load failed.
    pub run_in_order :
        (es : List (Event Money)) (items : List (RequestLog Money)) (total : ℕ)
        → Along (step encode) IsInOrder (initial encode Money) es
        → (run encode (initial encode Money) es).pending ≡ []
        → serve (current (run encode (initial encode Money) es)) ≡ some (items, total)
        → let p = run encode (initial encode Money) es in
          (p.loading ≡ false) × (p.logs ≡ items) × (p.total ≡ total)
    unfolding initial load
    run_in_order es items total ordered idle answer =
        let p = run encode (initial encode Money) es in
        let served =
          run-keeps_along (step encode) IsInOrder IsServed step-IsServed (initial encode Money) es
            ordered (inl ([], refl)) in
        shows_answer items total p idle answer served
