-- ===== src/Logs/Page/Laws.antt =====
-- What the console shows and keeps, whatever happens to it.
use clever_gate.Runs
use clever_gate.Runs.{All, run-keeps_while}
use clever_gate.Prelude.{
  subst, ℕ, ◌≤◌, String, true, Option, none, some, List, [], ◌∷◌, ◌++◌, ◌≡◌, refl, ◌≢◌, sym, arith,
  length, length-take_last, take_last, take_last-append, if◌then◌else◌, Bool-cases, inl, inr,
}
use clever_gate.Json.{Json}
use clever_gate.Types.{SystemLog}
use clever_gate.Logs.Page.{
  live, history, is_live, Page, initial, max_live_logs, received, append_logs, run_query, set_mode,
  toggle_semantic, toggle_live, handle_clear, query_settles, Event, message, pause, clear,
  mode_chosen, semantic_chip, search_typed, query_submitted, query_settled, chip, card, row_clicked,
  drawer_closed, meta_typed, step, run,
}

module _ (parse : String → Option Json) (uuid : ℕ → String) where
  abbrev pub with_received : List SystemLog → Option (List SystemLog) → List SystemLog
  with_received total none = total
  with_received total (some new_logs) = total ++ new_logs

  -- All logs that were received since the console was last cleared.
  abbrev pub total_after : Page → List SystemLog → Event → List SystemLog
  total_after p total (message text) =
      if is_live p.mode then with_received total (received parse uuid p.ids text) else total
  total_after p total clear = []
  total_after p total e = total

  unfoldable pub received_since : Page → List SystemLog → List Event → List SystemLog
  received_since p total [] = total
  received_since p total (e ∷ es) = received_since (step parse uuid p e) (total_after p total e) es

  append_logs-buffer :
      (p : Page) (total : List SystemLog) (r : Option (List SystemLog))
      → p.buffer ≡ take_last max_live_logs total
      → (append_logs p r).buffer ≡ take_last max_live_logs (with_received total r)
  append_logs-buffer p total none h = h
  append_logs-buffer p total (some new_logs) h =
      let kept = take_last-append max_live_logs total new_logs in ground arith

  step-buffer :
      (p : Page) (total : List SystemLog) (e : Event)
      → p.buffer ≡ take_last max_live_logs total
      → (step parse uuid p e).buffer ≡ take_last max_live_logs (total_after p total e)
  unfolding step set_mode toggle_semantic toggle_live query_settles run_query handle_clear
  step-buffer p total (message text) h =
      ground (arith, append_logs-buffer p total (received parse uuid p.ids text) h)
  step-buffer p total clear h = refl
  step-buffer p total pause h = ground arith
  step-buffer p total (mode_chosen live) h = h
  step-buffer p total (mode_chosen history) h = ground arith
  step-buffer p total semantic_chip h = ground arith
  step-buffer p total query_submitted h = ground arith
  step-buffer p total (query_settled none) h = h
  step-buffer p total (query_settled (some items)) h = h
  step-buffer p total (search_typed s) h = h
  step-buffer p total (chip l) h = h
  step-buffer p total (card g) h = h
  step-buffer p total (row_clicked l) h = h
  step-buffer p total drawer_closed h = h
  step-buffer p total (meta_typed s) h = h

  run-buffer_from :
      (p : Page) (total : List SystemLog) (es : List Event)
      → p.buffer ≡ take_last max_live_logs total
      → (run parse uuid p es).buffer ≡ take_last max_live_logs (received_since p total es)
  unfolding Runs.run received_since
  run-buffer_from p total [] h = h
  run-buffer_from p total (e ∷ es) h =
      run-buffer_from (step parse uuid p e) (total_after p total e) es (step-buffer p total e h)

  -- Whatever happens, the buffer holds the last 500 of the logs received since the last clearing,
  -- in the order of their arrival, and never more than 500.
  pub run-buffer :
      (es : List Event)
      → let p = run parse uuid initial es in
        (p.buffer ≡ take_last max_live_logs (received_since initial [] es))
        × (length p.buffer ≤ max_live_logs)
  unfolding initial
  run-buffer es =
      let all = received_since initial [] es in
      let e = run-buffer_from initial [] es refl in
      (e, subst (λ b. length b ≤ max_live_logs) (sym e) (length-take_last max_live_logs all))

  -- In live mode and not paused, the console shows its buffer.
  abbrev IsSynced : Page → Type 0
  IsSynced p = p.mode ≡ live → p.streaming ≡ true → p.logs ≡ p.buffer

  -- The event is not an answer to a query.
  abbrev pub NoAnswer : Event → Type 0
  NoAnswer (query_settled (some items)) = ⊥
  NoAnswer e = Unit

  append_logs-IsSynced :
      (p : Page) (r : Option (List SystemLog)) → IsSynced p → IsSynced (append_logs p r)
  append_logs-IsSynced p none h m s = h m s
  append_logs-IsSynced p (some new_logs) h m s = ground arith

  step-IsSynced : (p : Page) (e : Event) → NoAnswer e → IsSynced p → IsSynced (step parse uuid p e)
  unfolding step set_mode toggle_semantic toggle_live query_settles run_query handle_clear
  step-IsSynced p (message text) n h m s = elim (Bool-cases (is_live p.mode)) [
    | inl l ↦
        rw l (append_logs-IsSynced p (received parse uuid p.ids text) h (rw l at m) (rw l at s))
    | inr l ↦ rw l (h (rw l at m) (rw l at s))
  ]
  step-IsSynced p clear n h m s = refl
  step-IsSynced p pause n h m s = ground arith
  step-IsSynced p (mode_chosen live) n h m s = refl
  step-IsSynced p (mode_chosen history) n h m s = ground arith
  step-IsSynced p semantic_chip n h m s = ground arith
  step-IsSynced p query_submitted n h m s = ground arith
  step-IsSynced p (query_settled none) n h m s = h m s
  step-IsSynced p (query_settled (some items)) n h m s = absurd n
  step-IsSynced p (search_typed t) n h m s = h m s
  step-IsSynced p (chip l) n h m s = h m s
  step-IsSynced p (card g) n h m s = h m s
  step-IsSynced p (row_clicked l) n h m s = h m s
  step-IsSynced p drawer_closed n h m s = h m s
  step-IsSynced p (meta_typed t) n h m s = h m s

  abbrev pub AllNoAnswer : List Event → Type 0
  AllNoAnswer = All (step parse uuid) NoAnswer

  run-IsSynced_from :
      (p : Page) (es : List Event) → AllNoAnswer es → IsSynced p → IsSynced (run parse uuid p es)
  run-IsSynced_from = run-keeps_while (step parse uuid) NoAnswer IsSynced step-IsSynced

  -- As long as no query has answered, the console shows its buffer when it is in live mode and not
  -- paused.
  pub run_synced :
      (es : List Event)
      → AllNoAnswer es
      → (run parse uuid initial es).mode ≡ live
      → (run parse uuid initial es).streaming ≡ true
      → (run parse uuid initial es).logs ≡ (run parse uuid initial es).buffer
  unfolding initial
  run_synced es n = run-IsSynced_from initial es n (λ m s. refl)

  -- An answer that arrives after the user has gone back to live mode, and that differs from the
  -- buffer, replaces the live logs: the console is then live, not paused, and shows another list
  -- than its buffer.
  late_answer :
      (p : Page) (items : List SystemLog)
      → p.mode ≡ live
      → p.streaming ≡ true
      → items ≢ p.buffer
      → let q = step parse uuid p (query_settled (some items)) in
        (q.mode ≡ live) × (q.streaming ≡ true) × (q.logs ≡ items) × (q.logs ≢ q.buffer)
  unfolding step query_settles
  late_answer p items m s d = (m, s, refl, d)
