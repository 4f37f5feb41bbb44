-- ===== src/Logs/Console/Laws.antt =====
-- The console has one connection at most, and only in live mode.
use clever_gate.Runs.{run-keeps}
use clever_gate.Prelude.{
  ℕ, zero, suc, ◌≤◌, String, true, Option, none, some, List, [], ◌∷◌, ◌++◌, ◌≡◌, refl, sym, subst,
  arith, length, Bool-cases, inl, inr,
}
use mathlib.Core.List.{append-nil}
use clever_gate.Json.{Json}
use clever_gate.Types.{SystemLog}
use clever_gate.Logs.Page
use clever_gate.Logs.Page.{Page, Mode, live, history, received, append_logs, is_live, max_live_logs}
use clever_gate.Logs.Socket
use clever_gate.Logs.Socket.{Connection, start, cleanup, is_in}
use clever_gate.Logs.Socket.Laws.{
  IsSingle, step-IsSingle, start-IsSingle, IsGone, cleanup-IsGone, step-IsGone,
}
use clever_gate.Logs.Console.{
  Links, Console, retire, sync, on_current, step_at, hears, Event, user, socket, late, arrives,
  is_message, is_leaving, step, run, opened,
}

-- Live mode has a connection, history mode has none.
abbrev pub Fits : Mode → Option Connection → Type 0
Fits live none = ⊥
Fits live (some c) = IsSingle c
Fits history none = Unit
Fits history (some c) = ⊥

abbrev pub AllGone : List Connection → Type 0
AllGone [] = Unit
AllGone (c ∷ cs) = IsGone c × AllGone cs

abbrev pub IsConsole : Mode → Links → Type 0
IsConsole m l = Fits m l.current × AllGone l.gone

-- All sockets that are open.
abbrev pub sockets_of : Option Connection → List ℕ
sockets_of none = []
sockets_of (some c) = c.attached

abbrev pub gone_sockets : List Connection → List ℕ
gone_sockets [] = []
gone_sockets (c ∷ cs) = c.attached ++ gone_sockets cs

abbrev pub sockets : Links → List ℕ
sockets l = sockets_of l.current ++ gone_sockets l.gone

retire-IsConsole :
    (l : Links) (c : Option Connection)
    → Fits live c
    → AllGone l.gone
    → IsConsole history (retire l c)
retire-IsConsole l none h g = absurd h
retire-IsConsole l (some c) h g = (tt, (cleanup-IsGone c h, g))

sync-IsConsole :
    (before after : Mode) (token : Option String) (l : Links)
    → IsConsole before l
    → IsConsole after (sync before after token l)
sync-IsConsole live live token l h = h
sync-IsConsole live history token l (f, g) = retire-IsConsole l l.current f g
sync-IsConsole history live token l (f, g) = (start-IsSingle token, g)
sync-IsConsole history history token l h = h

on_current-IsConsole :
    (m : Mode) (e : Socket.Event) (l : Links) (c : Option Connection)
    → l.current ≡ c
    → IsConsole m l
    → IsConsole m (on_current e l c)
on_current-IsConsole m e l none q h = h
on_current-IsConsole live e l (some c) q (f, g) = (step-IsSingle c e (subst (Fits live) q f), g)
on_current-IsConsole history e l (some c) q (f, g) = absurd (subst (Fits history) q f)

step_at-AllGone :
    (n : ℕ) (e : Socket.Event) (cs : List Connection) → AllGone cs → AllGone (step_at n e cs)
unfolding step_at
step_at-AllGone zero e [] g = tt
step_at-AllGone (suc n) e [] g = tt
step_at-AllGone zero e (c ∷ cs) (g, gs) = ((step-IsGone c e g).0, gs)
step_at-AllGone (suc n) e (c ∷ cs) (g, gs) = (g, step_at-AllGone n e cs gs)

gone_sockets-none : (cs : List Connection) → AllGone cs → gone_sockets cs ≡ []
gone_sockets-none [] g = refl
gone_sockets-none (c ∷ cs) ((h, a, t), gs) = rw (a, gone_sockets-none cs gs) refl

pub hears_live :
    (m : Mode) (id : ℕ) (c : Option Connection) → Fits m c → hears id c ≡ true → m ≡ live
hears_live live id c f h = refl
hears_live history id none f h = cc
hears_live history id (some c) f h = absurd f

length-attached-le : (c : Connection) → IsSingle c → length c.attached ≤ 1
length-attached-le c (inl (a, t, r)) = ground arith
length-attached-le c (inr (inl (s, (w, a, t, r, h)))) = ground arith
length-attached-le c (inr (inr (s, (w, t, a, r, h)))) = ground arith

-- How many sockets a mode allows.
abbrev pub allowed : Mode → ℕ
allowed live = 1
allowed history = 0

current-le : (m : Mode) (o : Option Connection) → Fits m o → length (sockets_of o) ≤ allowed m
current-le live none h = absurd h
current-le live (some c) h = length-attached-le c h
current-le history none h = omega arith
current-le history (some c) h = absurd h

sockets-le : (m : Mode) (l : Links) → IsConsole m l → length (sockets l) ≤ allowed m
sockets-le m l (f, g) =
    let e = gone_sockets-none l.gone g in
    rw (e, append-nil (sockets_of l.current)) (current-le m l.current f)

module _ (parse : String → Option Json) (uuid : ℕ → String) where
  append_logs-mode : (p : Page) (r : Option (List SystemLog)) → (append_logs p r).mode ≡ p.mode
  append_logs-mode p none = refl
  append_logs-mode p (some ls) = ground arith

  message-mode :
      (p : Page) (text : String) → (Page.step parse uuid p (Page.message text)).mode ≡ p.mode
  unfolding Page.step
  message-mode p text = ground (arith, append_logs-mode p (received parse uuid p.ids text))

  step-IsConsole :
      (c : Console) (e : Event)
      → IsConsole c.page.mode c.links
      → IsConsole (step parse uuid c e).page.mode (step parse uuid c e).links
  unfolding step
  step-IsConsole c (user e token) h = elim (Bool-cases (is_message e)) [
    | inl m ↦ rw m h
    | inr n ↦
        let page = Page.step parse uuid c.page e in
        rw n (sync-IsConsole c.page.mode page.mode token c.links h)
  ]
  step-IsConsole c (socket e) h = elim (Bool-cases (is_leaving e)) [
    | inl m ↦ rw m h
    | inr n ↦ rw n (on_current-IsConsole c.page.mode e c.links c.links.current refl h)
  ]
  step-IsConsole c (late n e) (f, g) = (f, step_at-AllGone n e c.links.gone g)
  step-IsConsole c (arrives id text) h = elim (Bool-cases (hears id c.links.current)) [
    | inr deaf ↦ rw deaf h
    | inl heard ↦ rw heard (subst (λ m. IsConsole m c.links) (sym (message-mode c.page text)) h)
  ]

  pub run-IsConsole :
      (c : Console) (es : List Event)
      → IsConsole c.page.mode c.links
      → IsConsole (run parse uuid c es).page.mode (run parse uuid c es).links
  run-IsConsole = run-keeps (step parse uuid) (λ c. IsConsole c.page.mode c.links) step-IsConsole

  pub opened-IsConsole :
      (token : Option String) → IsConsole (opened token).page.mode (opened token).links
  unfolding opened Page.initial
  opened-IsConsole token = (start-IsSingle token, tt)

  -- Whatever the user, the browser and the server do, and whatever an earlier connection is still
  -- told, the console has at most one open socket in live mode and none in history mode.
  pub run-sockets :
      (token : Option String) (es : List Event)
      → let c = run parse uuid (opened token) es in length (sockets c.links) ≤ allowed c.page.mode
  run-sockets token es =
      let c = run parse uuid (opened token) es in
      sockets-le c.page.mode c.links (run-IsConsole (opened token) es (opened-IsConsole token))
