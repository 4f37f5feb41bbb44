-- ===== src/Logs/View.antt =====
-- frontend/app/(dashboard)/logs/page.tsx: what the console shows around its rows: the cards, the
-- toolbar, the frame of the terminal and the line below it. `connected` and `following` stand for
-- the state of the connection and for `autoScrollRef.current`.
pub mod Laws
use clever_gate.Prelude.{
  ℕ, suc, String, Bool, not, ◌&&◌, Option, none, some, List, [], ◌∷◌, ◌<>◌, length, nat_eq,
  if◌then◌else◌,
}
use clever_gate.Show.{show_nat}
use clever_gate.Types.{SystemLog}
use clever_gate.Logs.Levels.{
  Group, all, info, warning, error, levels, has, is_all_active, is_error_active, filtered_logs,
  stats, Stats,
}
use clever_gate.Logs.Page.{Page, is_live}
use clever_gate.Logs.Row.{LogRow, log_row, level_color}

-- A card: what a click toggles, its title and number, and how it looks.
pub record Card : Type 0 where
  pub group : Group
  pub title : String
  pub count : ℕ
  pub border : String
  pub shadow : String
  pub background : String
  pub is_bright : Bool

-- A card whose border has the colour `color` and whose glow has `rgb`, when it is lit.
abbrev pub card_of : Group → String → ℕ → String → String → Bool → Card
card_of group title count color rgb lit = record {
  group = group;
  title = title;
  count = count;
  border =
      if lit
      then "1px solid var(--mantine-color-" <> color <> "-5)"
      else "1px solid rgba(255, 255, 255, 0.05)";
  shadow = if lit then "0 4px 20px rgba(" <> rgb <> ", 0.15)" else "none";
  background = if lit then "rgba(" <> rgb <> ", 0.06)" else "rgba(255, 255, 255, 0.01)";
  is_bright = lit;
}

abbrev pub cards_of : Stats → List String → List Card
cards_of s active =
    card_of all "Total logs" s.total "brand" "106, 118, 252" (is_all_active active)
    ∷ card_of info "Info logs" s.info "blue" "34, 139, 230" (has "INFO" active)
    ∷ card_of warning "Warnings" s.warning "yellow" "250, 176, 5" (has "WARNING" active)
    ∷ card_of error "Errors" s.error "red" "250, 82, 82" (is_error_active active)
    ∷ []

unfoldable pub cards : Page → List Card
cards p = cards_of (stats p.logs) p.active_levels

-- One chip of the toolbar.
pub record LevelChip : Type 0 where
  pub level : String
  pub checked : Bool
  pub color : String

abbrev pub chips_of : List String → List String → List LevelChip
chips_of [] active = []
chips_of (l ∷ ls) active =
    record { level = l; checked = has l active; color = level_color l } ∷ chips_of ls active

unfoldable pub level_chips : Page → List LevelChip
level_chips p = chips_of levels p.active_levels

-- The controls that only the live mode has: a switch, the badge of the connection and the button
-- that pauses the stream.
pub record LiveControls : Type 0 where
  pub follows : Bool
  pub tooltip : String
  pub badge_color : String
  pub badge : String
  pub button_variant : String
  pub button_color : String
  pub button : String

abbrev pub live_controls : (connected following streaming : Bool) → LiveControls
live_controls connected following streaming = record {
  follows = following;
  tooltip = if connected then "Connected to log pipeline" else "Disconnected from log pipeline";
  badge_color = if connected then "green" else "gray";
  badge = if connected then "Live" else "Offline";
  button_variant = if streaming then "filled" else "light";
  button_color = if streaming then "green" else "gray";
  button = if streaming then "Stream" else "Paused";
}

-- `apply` says whether the button of that name turns its spinner; it is there in history mode only.
pub record Toolbar : Type 0 where
  pub placeholder : String
  pub search : String
  pub semantic : Bool
  pub apply : Option Bool
  pub chips : List LevelChip
  pub controls : Option LiveControls

unfoldable pub toolbar : (connected following : Bool) → Page → Toolbar
unfolding level_chips
toolbar connected following p = record {
  placeholder = if p.semantic_mode then "Semantic vector search..." else "Filter logs message...";
  search = p.search;
  semantic = p.semantic_mode;
  apply = if is_live p.mode then none else some p.loading;
  chips = level_chips p;
  controls = if is_live p.mode then some (live_controls connected following p.streaming) else none;
}

-- A row with its key, whether it glides to a new place, and whether it fades in from the left.
pub record TerminalRow : Type 0 where
  pub key : String
  pub row : LogRow
  pub glides : Bool
  pub fades_in : Bool

abbrev pub rows_from : Bool → ℕ → List SystemLog → List TerminalRow
rows_from live index [] = []
rows_from live index (l ∷ ls) =
    record { key = l.id; row = log_row l; glides = live; fades_in = live && nat_eq index 0 }
    ∷ rows_from live (suc index) ls

pub record Terminal : Type 0 where
  pub pulse : Bool
  pub source : String
  pub empty_message : Option String
  pub rows : List TerminalRow

unfoldable pub terminal : (connected : Bool) → Page → Terminal
terminal connected p =
    let shown = filtered_logs p.active_levels p.logs in
    let live = is_live p.mode in
    record {
      pulse = live && connected;
      source = if live then "WS_STREAM" else "DB_QUERY";
      empty_message =
          if nat_eq (length shown) 0
          then some (
              if live
              then "Waiting for log pipeline events..."
              else "No matching historical logs found.")
          else none;
      rows = rows_from live 0 shown;
    }

-- The line below the terminal: its text, and whether the button to the newest log is there.
unfoldable pub footer : (following : Bool) → Page → String × Bool
footer following p = (
  "Loaded: "
      <> show_nat (length (filtered_logs p.active_levels p.logs))
      <> " logs "
      <> (if is_live p.mode && p.streaming then "(Streaming active)" else ""),
  is_live p.mode && not following,
)
