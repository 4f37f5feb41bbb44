-- ===== src/Logs/Socket/Laws.antt =====
-- What holds of the live connection whatever the browser and the server do.
use clever_gate.Runs.{run-keeps, run-leaves}
use clever_gate.Prelude.{
  ℕ, ◌≤◌, String, true, false, Option, some, List, [], ◌∷◌, ◌≡◌, refl, ◌⊎◌, inl, inr, arith, nat_eq,
  ◌∙◌, Bool-cases, ◌≢◌,
}
use clever_gate.Logs.Socket.{
  Connection, has_token, connect, on_close, on_refreshed, cleanup, Event, opens, fails, closes,
  refreshes, fires, leaves, step, run, fresh, start,
}

-- No socket and no timer, and at most one refresh.
abbrev pub IsQuiet : Connection → Type 0
IsQuiet c = (c.attached ≡ []) × (c.timers ≡ []) × (c.refreshing ≤ 1)

-- One socket, which is the one that the clean-up closes.
abbrev pub AttachedBy : ℕ → Connection → Type 0
AttachedBy id c =
    (c.ws ≡ some id)
    × (c.attached ≡ id ∷ [])
    × (c.timers ≡ [])
    × (c.refreshing ≡ 0)
    × (c.cancelled ≡ false)

abbrev pub IsAttached : Connection → Type 0
IsAttached c = (id : ℕ) × AttachedBy id c

-- One timer, which is the one that the clean-up clears.
abbrev pub WaitsFor : ℕ → Connection → Type 0
WaitsFor id c =
    (c.reconnect_timer ≡ some id)
    × (c.timers ≡ id ∷ [])
    × (c.attached ≡ [])
    × (c.refreshing ≡ 0)
    × (c.cancelled ≡ false)

abbrev pub IsWaiting : Connection → Type 0
IsWaiting c = (id : ℕ) × WaitsFor id c

abbrev pub IsSingle : Connection → Type 0
IsSingle c = IsQuiet c ⊎ IsAttached c ⊎ IsWaiting c

connect-IsSingle :
    (token : Option String) (c : Connection)
    → c.attached ≡ []
    → c.timers ≡ []
    → c.refreshing ≡ 0
    → IsSingle (connect token c)
unfolding connect
connect-IsSingle token c a t r = elim (Bool-cases c.cancelled) [
  | inl gone ↦ inl (ground arith)
  | inr here ↦ elim (Bool-cases (has_token token)) [
    | inr absent ↦ inl (ground arith)
    | inl given ↦ inr (inl (c.opened, ground arith))
  ]
]

on_close-IsSingle :
    (code : ℕ) (c : Connection)
    → c.attached ≡ []
    → c.timers ≡ []
    → c.refreshing ≡ 0
    → c.cancelled ≡ false
    → IsSingle (on_close code c)
unfolding on_close
on_close-IsSingle code c a t r h = elim (Bool-cases (nat_eq code 1008)) [
  | inl expired ↦ inl (ground arith)
  | inr other ↦ inr (inr (c.next_timer, ground arith))
]

on_refreshed-IsSingle :
    (token : Option String) (c : Connection)
    → IsQuiet c
    → c.refreshing ≢ 0
    → IsSingle (on_refreshed token c)
unfolding on_refreshed
on_refreshed-IsSingle token c (a, t, r) n = elim (Bool-cases c.cancelled) [
  | inl gone ↦ inl (ground arith)
  | inr here ↦ elim (Bool-cases (has_token token)) [
    | inr absent ↦ inl (ground arith)
    | inl given ↦ inr (inr (c.next_timer, ground arith))
  ]
]

quiet-step : (c : Connection) (e : Event) → IsQuiet c → IsSingle (step c e)
unfolding step
quiet-step c (opens id) (a, t, r) = inl (ground arith)
quiet-step c (fails id) (a, t, r) = inl (ground arith)
quiet-step c (closes id code) (a, t, r) = inl (ground arith)
quiet-step c (refreshes token) (a, t, r) = elim (Bool-cases (nat_eq c.refreshing 0)) [
  | inl nothing ↦ inl (ground arith)
  | inr due ↦ refreshed (on_refreshed-IsSingle token c (a, t, r) (ground arith)) due
]
  where
    refreshed :
        IsSingle (on_refreshed token c)
        → nat_eq c.refreshing 0 ≡ false
        → IsSingle (step c (refreshes token))
    refreshed h due = rw (due, step) h
quiet-step c (fires timer token) (a, t, r) = inl (ground arith)
quiet-step c leaves (a, t, r) = inl (ground arith)

attached-step : (c : Connection) (e : Event) → IsAttached c → IsSingle (step c e)
unfolding step
attached-step c (opens id) (s, (w, a, t, r, h)) = inr (inl (s, ground arith))
attached-step c (fails id) (s, (w, a, t, r, h)) = inr (inl (s, ground arith))
attached-step c (closes id code) (s, (w, a, t, r, h)) = elim (Bool-cases (nat_eq s id)) [
  | inr other ↦ inr (inl (s, ground arith))
  | inl same ↦ elim (Bool-cases (nat_eq code 1008)) [
    | inl expired ↦ inl (ground arith)
    | inr plain ↦ inr (inr (c.next_timer, ground arith))
  ]
]
attached-step c (refreshes token) (s, (w, a, t, r, h)) = inr (inl (s, ground arith))
attached-step c (fires timer token) (s, (w, a, t, r, h)) = inr (inl (s, ground arith))
attached-step c leaves (s, (w, a, t, r, h)) = inl (ground arith)

waiting-step : (c : Connection) (e : Event) → IsWaiting c → IsSingle (step c e)
unfolding step
waiting-step c (opens id) (s, (w, t, a, r, h)) = inr (inr (s, ground arith))
waiting-step c (fails id) (s, (w, t, a, r, h)) = inr (inr (s, ground arith))
waiting-step c (closes id code) (s, (w, t, a, r, h)) = inr (inr (s, ground arith))
waiting-step c (refreshes token) (s, (w, t, a, r, h)) = inr (inr (s, ground arith))
waiting-step c (fires timer token) (s, (w, t, a, r, h)) = elim (Bool-cases (nat_eq s timer)) [
  | inr other ↦ inr (inr (s, ground arith))
  | inl same ↦ elim (Bool-cases (has_token token)) [
    | inr absent ↦ inl (ground arith)
    | inl given ↦ inr (inl (c.opened, ground arith))
  ]
]
waiting-step c leaves (s, (w, t, a, r, h)) = inl (ground arith)

pub step-IsSingle : (c : Connection) (e : Event) → IsSingle c → IsSingle (step c e)
step-IsSingle c e (inl q) = quiet-step c e q
step-IsSingle c e (inr (inl s)) = attached-step c e s
step-IsSingle c e (inr (inr w)) = waiting-step c e w

pub start-IsSingle : (token : Option String) → IsSingle (start token)
unfolding start
start-IsSingle token = connect-IsSingle token fresh refl refl refl

-- Whatever happens, one thing at most is due: one socket, one timer or one refresh, and a socket
-- or timer is the one that the clean-up ends.
pub run-IsSingle : (token : Option String) (es : List Event) → IsSingle (run (start token) es)
run-IsSingle token es =
    run-keeps step IsSingle step-IsSingle (start token) es (start-IsSingle token)

-- The clean-up has run.
abbrev pub IsGone : Connection → Type 0
IsGone c = (c.cancelled ≡ true) × (c.attached ≡ []) × (c.timers ≡ [])

pub cleanup-IsGone : (c : Connection) → IsSingle c → IsGone (cleanup c)
unfolding cleanup
cleanup-IsGone c (inl (a, t, r)) = (refl, ground arith, ground arith)
cleanup-IsGone c (inr (inl (s, (w, a, t, r, h)))) = (refl, ground arith, ground arith)
cleanup-IsGone c (inr (inr (s, (w, t, a, r, h)))) = (refl, ground arith, ground arith)

-- No socket more is opened and no attempt is timed.
abbrev Rests : Connection → Connection → Type 0
Rests c d = (d.opened ≡ c.opened) × (d.delays ≡ c.delays)

pub step-IsGone : (c : Connection) (e : Event) → IsGone c → IsGone (step c e) × Rests c (step c e)
unfolding step
step-IsGone c (opens id) (h, a, t) = ground arith
step-IsGone c (fails id) (h, a, t) = ground arith
step-IsGone c (closes id code) (h, a, t) = ground arith
step-IsGone c (refreshes token) (h, a, t) = ground arith
step-IsGone c (fires timer token) (h, a, t) = ground arith
step-IsGone c leaves (h, a, t) = ((refl, ground arith, ground arith), ground arith)

run-IsGone : (c : Connection) (es : List Event) → IsGone c → IsGone (run c es) × Rests c (run c es)
run-IsGone =
    run-leaves step IsGone Rests (λ c. (refl, refl)) (λ c d e (o, l) (o', l'). (o' ∙ o, l' ∙ l))
      step-IsGone

-- Once the page has left live mode no socket is opened and no attempt is timed any more, also when
-- a refresh that was under way gives a token; and no socket or timer is left.
pub run_after_cleanup :
    (token : Option String) (before after : List Event)
    → let c = run (start token) before in
      let d = run (step c leaves) after in
      (d.opened ≡ c.opened) × (d.delays ≡ c.delays) × (d.attached ≡ []) × (d.timers ≡ [])
unfolding step
run_after_cleanup token before after =
    let c = run (start token) before in
    let ((h, a, t), (o, d)) =
      run-IsGone (cleanup c) after (cleanup-IsGone c (run-IsSingle token before)) in
    (o, d, a, t)
