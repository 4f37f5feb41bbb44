-- ===== src/Logs/Page.antt =====
-- frontend/app/(dashboard)/logs/page.tsx: the state of the console and what changes it, except for
-- the connection, which is `Logs.Socket`. Whatever may happen next is an event; a query that was
-- sent settles at any later time. `liveRef` follows `live` at once.
pub mod Laws
use clever_gate.Runs
use clever_gate.Prelude.{
  ℕ, suc, ◌+◌, String, Bool, true, false, not, ◌&&◌, ◌||◌, Option, none, some, List, [], ◌∷◌, ◌++◌,
  ◌≡◌, refl, take_last, length, truthy, trim, if◌then◌else◌,
}
use text.Mathlib.Text.{◌==◌}
use clever_gate.Json.{
  Json, Items, nil, cons, Fields, end, null, str, arr, obj, Access, throws, undefined, value, get,
  to_text,
}
use clever_gate.Types.{SystemLog}
use clever_gate.Logs.Levels.{Group, levels, toggle_level, toggle_level_group}

abbrev pub max_live_logs : ℕ
max_live_logs = 500

pub data Mode : Type 0 where
  live history : Mode

abbrev pub is_live : Mode → Bool
is_live live = true
is_live history = false

-- The request of one historical query.
pub data Query : Type 0 where
  semantic : (q : String) → Query
  listing : (params : List (String × String)) → Query

pub record Page : Type 0 where
  pub mode : Mode
  pub logs : List SystemLog
  pub active_levels : List String
  pub search : String
  pub semantic_mode : Bool
  pub streaming : Bool
  pub loading : Bool
  pub selected_log : Option SystemLog
  pub meta_search : String
  -- `bufferRef.current`, the queries sent, and how many ids `randomUUID` has given.
  pub buffer : List SystemLog
  pub queries : List Query
  pub ids : ℕ

unfoldable pub initial : Page
initial = record {
  mode = live;
  logs = [];
  active_levels = levels;
  search = "";
  semantic_mode = false;
  streaming = true;
  loading = false;
  selected_log = none;
  meta_search = "";
  buffer = [];
  queries = [];
  ids = 0;
}

-- `e.context || {}`, where `SystemLog` declares an object; what is no object is kept as an empty one.
abbrev context_of : Access → Fields
context_of (value (obj fs)) = fs
context_of a = end

module _ (parse : String → Option Json) (uuid : ℕ → String) where
  -- One log of a batch. The fields are texts; another value is kept by the text that shows it.
  abbrev pub log_of : ℕ → Json → Option SystemLog
  log_of id null = none
  log_of id e = some (record {
    id = uuid id;
    timestamp = to_text (get "timestamp" e);
    level = to_text (get "level" e);
    logger_name = to_text (get "logger_name" e);
    message = to_text (get "message" e);
    context = context_of (get "context" e);
  })

  -- `typeof raw === "string" ? JSON.parse(raw) : raw`
  abbrev pub entry_of : Json → Option Json
  entry_of (str s) = parse s
  entry_of e = some e

  abbrev cons_log : Option SystemLog → Option (List SystemLog) → Option (List SystemLog)
  cons_log none rest = none
  cons_log (some l) none = none
  cons_log (some l) (some ls) = some (l ∷ ls)

  abbrev pub log_of? : ℕ → Option Json → Option SystemLog
  log_of? id none = none
  log_of? id (some e) = log_of id e

  -- `batch.map(...)`, which throws if one entry does.
  unfoldable pub logs_of : ℕ → Items → Option (List SystemLog)
  logs_of id nil = some []
  logs_of id (cons raw rest) = cons_log (log_of? id (entry_of raw)) (logs_of (suc id) rest)

  abbrev is_heartbeat : Access → Bool
  is_heartbeat (value (str s)) = s == "heartbeat"
  is_heartbeat a = false

  abbrev items_of : Json → Items
  items_of (arr xs) = xs
  items_of d = cons d nil

  -- The logs that a message brings: none for a heartbeat, and none where anything throws.
  abbrev pub received_value : ℕ → Option Json → Option (List SystemLog)
  received_value id none = none
  received_value id (some null) = none
  received_value id (some d) = if is_heartbeat (get "type" d) then none else logs_of id (items_of d)

  unfoldable pub received : ℕ → String → Option (List SystemLog)
  unfolding logs_of get
  received id text = received_value id (parse text)

-- The rest of `onmessage`.
abbrev pub append_logs : Page → Option (List SystemLog) → Page
append_logs p none = p
append_logs p (some new_logs) =
    let buffer = take_last max_live_logs (p.buffer ++ new_logs) in
    let q : Page = record p { buffer = buffer; ids = p.ids + length new_logs } in
    if p.streaming then record q { logs = buffer } else q

-- `runQuery` up to its `await`.
abbrev pub query_of : Page → Query
query_of p =
    if p.semantic_mode && truthy (trim p.search)
    then semantic p.search
    else listing (
        if truthy p.search
        then ("search", p.search) ∷ ("page", "1") ∷ ("page_size", "200") ∷ []
        else ("page", "1") ∷ ("page_size", "200") ∷ [])

unfoldable pub run_query : Page → Page
run_query p = record p { loading = true; queries = p.queries ++ query_of p ∷ [] }

-- A change of `mode`, and the effect that it triggers.
abbrev pub enter_history : Page → Page
enter_history p = if is_live p.mode then run_query (record p { mode = history }) else p

unfoldable pub set_mode : Mode → Page → Page
unfolding run_query
set_mode live p = record p { mode = live; logs = p.buffer }
set_mode history p = enter_history p

unfoldable pub toggle_semantic : Page → Page
unfolding run_query
toggle_semantic p = enter_history (record p { semantic_mode = not p.semantic_mode })

unfoldable pub toggle_live : Page → Page
toggle_live p =
    let q : Page = record p { streaming = not p.streaming } in
    if p.streaming then q else record q { logs = p.buffer }

unfoldable pub handle_clear : Page → Page
handle_clear p = record p { logs = []; buffer = [] }

unfoldable pub query_settles : Option (List SystemLog) → Page → Page
query_settles none p = record p { loading = false }
query_settles (some items) p = record p { logs = items; loading = false }

-- The pause button is there in live mode, and the ways to submit a query in history mode.
pub data Event : Type 0 where
  message : String → Event
  pause : Event
  clear : Event
  mode_chosen : Mode → Event
  semantic_chip : Event
  search_typed : String → Event
  query_submitted : Event
  query_settled : Option (List SystemLog) → Event
  chip : String → Event
  card : Group → Event
  row_clicked : SystemLog → Event
  drawer_closed : Event
  meta_typed : String → Event

module _ (parse : String → Option Json) (uuid : ℕ → String) where
  unfoldable pub step : Page → Event → Page
  step p (message text) =
      if is_live p.mode then append_logs p (received parse uuid p.ids text) else p
  step p pause = if is_live p.mode then toggle_live p else p
  step p clear = handle_clear p
  step p (mode_chosen m) = set_mode m p
  step p semantic_chip = toggle_semantic p
  step p (search_typed s) = record p { search = s }
  step p query_submitted = if is_live p.mode then p else run_query p
  step p (query_settled r) = query_settles r p
  step p (chip l) = record p { active_levels = toggle_level l p.active_levels }
  step p (card g) = record p { active_levels = toggle_level_group g p.active_levels }
  step p (row_clicked l) = record p { selected_log = some l; meta_search = "" }
  step p drawer_closed = record p { selected_log = none }
  step p (meta_typed s) = record p { meta_search = s }

  abbrev pub run : Page → List Event → Page
  run = Runs.run step
