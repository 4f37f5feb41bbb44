-- ===== src/Logs/Console/Buffer.antt =====
-- What the page of the console has heard from its connections.
use clever_gate.Runs
use clever_gate.Runs.{run-matches}
use clever_gate.Prelude.{
  take_last, ℕ, ◌≤◌, String, true, Option, List, [], ◌∷◌, ◌≡◌, refl, sym, ap, ◌∙◌, subst, arith,
  length, if◌then◌else◌,
}
use clever_gate.Json.{Json}
use clever_gate.Logs.Page
use clever_gate.Logs.Page.{Page, Mode, live, history, received, append_logs, is_live, max_live_logs}
use clever_gate.Logs.Page.Laws.{received_since, run-buffer}
use clever_gate.Logs.Console.{
  Console, hears, Event, user, socket, late, arrives, is_message, step, run, opened,
}
use clever_gate.Logs.Console.Laws.{hears_live, run-IsConsole, opened-IsConsole}

module _ (parse : String → Option Json) (uuid : ℕ → String) where
  -- The events as the page meets them: a message only by an open socket.
  abbrev pub page_event : Console → Event → List Page.Event
  page_event c (user e token) = if is_message e then [] else e ∷ []
  page_event c (socket e) = []
  page_event c (late n e) = []
  page_event c (arrives id text) = if hears id c.links.current then Page.message text ∷ [] else []

  abbrev pub page_events : Console → List Event → List Page.Event
  page_events = Runs.moves_of (step parse uuid) (Page.step parse uuid) page_event

  step-page :
      (c : Console) (e : Event)
      → (step parse uuid c e).page ≡ Page.run parse uuid c.page (page_event c e)
  unfolding step Runs.run
  step-page c (user e token) = ground arith
  step-page c (socket e) = ground arith
  step-page c (late n e) = refl
  step-page c (arrives id text) = ground arith

  run-page :
      (c : Console) (es : List Event)
      → (run parse uuid c es).page ≡ Page.run parse uuid c.page (page_events c es)
  run-page c es =
      run-matches (step parse uuid) (Page.step parse uuid) page_event (λ c p. c.page ≡ p)
        (λ c p e same. step-page c e ∙ ap (λ q. Page.run parse uuid q (page_event c e)) same) c
        c.page es refl

  -- In each state that the console can reach, a message that an open socket brings finds the page in
  -- live mode.
  heard_live :
      (token : Option String) (es : List Event) (id : ℕ)
      → hears id (run parse uuid (opened token) es).links.current ≡ true
      → (run parse uuid (opened token) es).page.mode ≡ live
  heard_live token es id h =
      let c = run parse uuid (opened token) es in
      let (fits, gone) =
        run-IsConsole parse uuid (opened token) es (opened-IsConsole parse uuid token) in
      hears_live c.page.mode id c.links.current fits h

  -- The page of the console is the page that the same user's events and the messages of open sockets
  -- lead to; so its buffer holds the last 500 of the logs that open sockets brought since the last
  -- clearing, and never more than 500.
  pub run-buffer_console :
      (token : Option String) (es : List Event)
      → let p = (run parse uuid (opened token) es).page in
        let seen = page_events (opened token) es in
        (p ≡ Page.run parse uuid Page.initial seen)
        × (p.buffer ≡ take_last max_live_logs (received_since parse uuid Page.initial [] seen))
        × (length p.buffer ≤ max_live_logs)
  unfolding opened
  run-buffer_console token es =
      let e = run-page (opened token) es in
      let seen = page_events (opened token) es in
      let (kept, small) = run-buffer parse uuid seen in
      (e, ap (λ p. p.buffer) e ∙ kept, subst (λ p. length p.buffer ≤ max_live_logs) (sym e) small)
