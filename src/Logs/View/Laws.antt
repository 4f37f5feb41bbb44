-- ===== src/Logs/View/Laws.antt =====
-- What the console shows of the logs that its page holds.
use clever_gate.Prelude.{
  ℕ, suc, ◌≡◌, refl, ap, ◌↔◌, Bool, false, ◌&&◌, none, List, [], ◌∷◌, ◌<>◌, length, nat_eq, arith,
  if◌then◌else◌,
}
use clever_gate.Show.{show_nat}
use clever_gate.Types.{SystemLog}
use clever_gate.Logs.Levels.{filtered_logs}
use clever_gate.Logs.Page.{Page, is_live}
use clever_gate.Logs.View.{rows_from, terminal, footer}

length-rows_from :
    (live : Bool) (i : ℕ) (logs : List SystemLog) → length (rows_from live i logs) ≡ length logs
length-rows_from live i [] = refl
length-rows_from live i (l ∷ ls) = ap suc (length-rows_from live (suc i) ls)

length-terminal :
    (connected : Bool) (p : Page)
    → length ((terminal connected p).rows) ≡ length (filtered_logs p.active_levels p.logs)
unfolding terminal
length-terminal connected p =
    length-rows_from (is_live p.mode) 0 (filtered_logs p.active_levels p.logs)

empty_message_none :
    (connected : Bool) (p : Page)
    → ((terminal connected p).empty_message ≡ none)
      ↔ (nat_eq (length (filtered_logs p.active_levels p.logs)) 0 ≡ false)
unfolding terminal
empty_message_none connected p = ground arith

-- The footer tells the number of the terminal's rows, and the terminal has a message in their place
-- exactly when there are none.
terminal-footer :
    (connected following : Bool) (p : Page)
    → let n = length ((terminal connected p).rows) in
      ((footer following p).0
        ≡ "Loaded: "
          <> show_nat n
          <> " logs "
          <> (if is_live p.mode && p.streaming then "(Streaming active)" else ""))
      × (((terminal connected p).empty_message ≡ none) ↔ (nat_eq n 0 ≡ false))
unfolding footer
terminal-footer connected following p =
    rw (length-terminal connected p) (refl, empty_message_none connected p)
