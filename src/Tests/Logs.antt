-- ===== src/Tests/Logs.antt =====
-- The console: its levels, its buffer and its connection.
use text.Mathlib.Text.{◌==◌}
use clever_gate.Runs
use clever_gate.Prelude.{
  ℕ, ◌≤◌, ◌≡◌, refl, String, true, false, Option, none, some, List, [], ◌∷◌, length, if◌then◌else◌,
  take_last, arith,
}
use clever_gate.Json.{Json, get, field, end, str, obj}
use clever_gate.Types.{SystemLog}
use clever_gate.Logs.Levels.{levels, has, all, error, stats}
use clever_gate.Logs.Levels.Laws.{Toggle, chip, card, apply_all}
use clever_gate.Logs.Levels.{filtered_logs}
use clever_gate.Logs.Levels.Refinement.{switches_of, spec_all, all_on, is_on, apply_all_refines}
use clever_gate.Prelude.{keep_if}
use clever_gate.Logs.Console
use clever_gate.Logs.Console.Laws.{sockets, allowed, run-sockets}
use clever_gate.Logs.Follow
use clever_gate.Logs.Follow.Laws.{run_snapped}
use clever_gate.Logs.Levels.Counts.{shown, stats-shown}
use clever_gate.Logs.Page
use clever_gate.Logs.Page.{Page, live, history, max_live_logs}
use clever_gate.Logs.Page.Laws.{received_since, run_synced}
use clever_gate.Logs.Console.Buffer.{page_events, run-buffer_console}
use clever_gate.Logs.Socket
use clever_gate.Logs.Socket.{Connection, start, has_token, delay_of}
use clever_gate.Logs.Socket.Laws.{IsSingle, run-IsSingle, run_after_cleanup}
use clever_gate.Logs.Socket.Outage.{outage, outage_reconnects}
use clever_gate.Logs.Row.{formatted_time}
use clever_gate.Prelude.{slice}

abbrev toggles : List Toggle
unfolding has
toggles = chip "DEBUG" refl ∷ card error ∷ card all ∷ []

abbrev log : String → String → SystemLog
log id level = record {
  id = id;
  timestamp = "";
  level = level;
  logger_name = "gateway";
  message = "hello";
  context = end;
}

abbrev logs : List SystemLog
logs = log "1" "ERROR" ∷ log "2" "TRACE" ∷ log "3" "CRITICAL" ∷ []

apply_all_refines_example :
    (switches_of (apply_all toggles levels) ≡ spec_all toggles all_on)
    × (filtered_logs (apply_all toggles levels) logs
        ≡ keep_if (λ l. is_on l.level (spec_all toggles all_on)) logs)
apply_all_refines_example = apply_all_refines toggles logs

stats-shown_example :
    let t = stats logs in
    (t.total ≡ length logs)
    × (t.debug ≡ shown ("DEBUG" ∷ []) logs)
    × (t.info ≡ shown ("INFO" ∷ []) logs)
    × (t.warning ≡ shown ("WARNING" ∷ []) logs)
    × (t.error ≡ shown ("ERROR" ∷ "CRITICAL" ∷ []) logs)
stats-shown_example = stats-shown logs

-- A parser that knows one message, and ids that are all the same.
abbrev parse : String → Option Json
parse s =
    if s == "one"
    then some (obj (field "level" (str "INFO") (field "message" (str "hello") end)))
    else none

abbrev uuid : ℕ → String
uuid n = "id"

abbrev events : List Page.Event
events = Page.message "one" ∷ Page.pause ∷ Page.message "one" ∷ Page.pause ∷ []

run_synced_example :
    (Page.run parse uuid Page.initial events).logs
    ≡ (Page.run parse uuid Page.initial events).buffer
unfolding Runs.run Page.step Page.initial Page.toggle_live Page.received Page.logs_of get
run_synced_example = run_synced parse uuid events (tt, (tt, (tt, (tt, tt)))) refl refl

-- The user looks at the history and comes back while the first socket is still to close.
abbrev visits : List Console.Event
visits =
    Console.socket (Socket.opens 0)
    ∷ Console.arrives 0 "one"
    ∷ Console.user (Page.mode_chosen history) none
    ∷ Console.user (Page.mode_chosen live) (some "t")
    ∷ Console.late 0 (Socket.closes 0 1006)
    ∷ []

run-buffer_console_example :
    let p = (Console.run parse uuid (Console.opened (some "t")) visits).page in
    let seen = page_events parse uuid (Console.opened (some "t")) visits in
    (p ≡ Page.run parse uuid Page.initial seen)
    × (p.buffer ≡ take_last max_live_logs (received_since parse uuid Page.initial [] seen))
    × (length p.buffer ≤ max_live_logs)
run-buffer_console_example = run-buffer_console parse uuid (some "t") visits

run-sockets_example :
    let c = Console.run parse uuid (Console.opened (some "t")) visits in
    length (sockets c.links) ≤ allowed c.page.mode
run-sockets_example = run-sockets parse uuid (some "t") visits

abbrev window : Follow.View
window = record {
  following = false;
  scroll_top = 3;
  scroll_height = 900;
  client_height = 300;
  event_due = false;
}

-- Rows come, the effect runs, the browser tells of the move, and more rows come.
abbrev rows_come : List Follow.Event
rows_come =
    Follow.dispatched
    ∷ Follow.laid_out 1200 300
    ∷ Follow.effect_runs
    ∷ Follow.dispatched
    ∷ Follow.laid_out 1240 300
    ∷ []

run_snapped_example :
    let w = Follow.run (Follow.step window Follow.snapped) rows_come in
    (w.following ≡ true) × ((Follow.step w Follow.effect_runs).scroll_top ≡ Follow.bottom w)
unfolding Runs.run Follow.step Follow.scroll_to Follow.handle_scroll
run_snapped_example = run_snapped window rows_come (tt, (refl, (tt, (tt, (refl, tt)))))

abbrev drops : List Socket.Event
drops =
    Socket.opens 0 ∷ Socket.closes 0 1006 ∷ Socket.fires 0 (some "t") ∷ Socket.closes 1 1008 ∷ []

run-IsSingle_example : IsSingle (Socket.run (start (some "t")) drops)
run-IsSingle_example = run-IsSingle (some "t") drops

run_after_cleanup_example :
    let c = Socket.run (start (some "t")) drops in
    let d = Socket.run (Socket.step c Socket.leaves) (Socket.refreshes (some "u") ∷ []) in
    (d.opened ≡ c.opened) × (d.delays ≡ c.delays) × (d.attached ≡ []) × (d.timers ≡ [])
run_after_cleanup_example = run_after_cleanup (some "t") drops (Socket.refreshes (some "u") ∷ [])

-- Six failures in a row.
abbrev failures : List ℕ
failures = 1006 ∷ 1006 ∷ 1001 ∷ 1006 ∷ 1006 ∷ 1006 ∷ []

outage_reconnects_example :
    let c = Socket.run (start (some "t")) (outage (some "t") failures (start (some "t"))) in
    (c.attached ≡ 6 ∷ [])
    × (c.opened ≡ 7)
    × (c.timers ≡ [])
    × (c.delays ≡ 1000 ∷ 2000 ∷ 4000 ∷ 8000 ∷ 10000 ∷ 10000 ∷ [])
outage_reconnects_example =
    outage_reconnects (some "t") failures refl
      (omega arith, (omega arith, (omega arith, (omega arith, (omega arith, (omega arith, tt))))))

time_of_iso : formatted_time "2026-01-02T03:04:05.678901+00:00" ≡ "03:04:05.678"
unfolding formatted_time
time_of_iso = refl

time_without_fraction : formatted_time "2026-01-02T03:04:05Z" ≡ "03:04:05Z"
unfolding formatted_time slice
time_without_fraction = refl
