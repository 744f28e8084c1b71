-- ===== src/Engine/Showman.antt =====
-- internal/engine/engine.go: what the showman may set by hand: cells, scores, the chooser, options.
use sigame_server.Prelude.{
  Bool, Option, false, if◌then◌else◌, int_eq, leb_ℤ, nat_eq, negsuc, none, not, pos, some,
  string_eq, sub64, true, ℕ, ℤ, ◌&&◌, ◌==◌, ◌||◌, ◌▷◌,
}
use sigame_server.Pack.{round_type_eq}
use sigame_server.Engine.Rules.{Rules, RulesPatch, TimeSettings}
use sigame_server.Engine.Kinds.{
  Error, PendingKind, Stage, TimerKind, pending_kind_eq, role_eq, stage_eq, sub_eq,
}
use sigame_server.Engine.State.{CellState, Pending, QuestionState, active, player}
use sigame_server.Engine.Command.{Command}
use sigame_server.Engine.Event.{EvType, Payload}
use sigame_server.Engine.Game.{
  Game, add_score, emit_all, emit_sums, emit_table, set_chooser, showman, to, with_state,
}
use sigame_server.Engine.Timers.{start_timer, stop_kind}
use sigame_server.Engine.Monad.{M, get, guard, or_fail, pure, require_showman, run, ◌>>=◌, ◌>>◌}
use sigame_server.Engine.Table.{cell_at, has_playable_cells, sequential, with_cell}
use sigame_server.Engine.Tail.{Tail}
use sigame_server.Engine.Appeal.Result.{ask_choose}
use sigame_server.Engine.Appeal.{is_none}

-- The cell of a command, by indexes that are in range.
abbrev index_or_zero : ℤ → ℕ
index_or_zero (pos i) = i
index_or_zero (negsuc i) = 0

abbrev is_current : QuestionState → ℤ → ℤ → Bool
is_current q t i = pos q.theme_index == t && pos q.question_index == i

unfoldable pub toggled : CellState → CellState
toggled c =
    if c.removed || c.played
    then record c { removed = false; played = false }
    else record c { removed = true }

unfoldable pub on_toggle : Command → M Tail
unfolding require_showman toggled emit_table has_playable_cells
on_toggle cmd = do
  require_showman cmd.actor
  g ← get
  guard (not (g.st.stage == Stage.lobby) && not (g.st.stage == Stage.game_end)) Error.bad_state
  c ← or_fail (cell_at g cmd.theme cmd.q) Error.bad_argument
  guard (leb_ℤ (pos 0) c.price) Error.bad_argument
  guard (not (g.st.stage == Stage.question && is_played g.st.question)) Error.bad_state
  run (with_cell (index_or_zero cmd.theme) (index_or_zero cmd.q) toggled)
  run (emit_all EvType.toggle (Payload.toggle cmd.theme cmd.q (not (toggled c).removed)))
  run emit_table
  g' ← get
  pure (
      if g'.st.stage == Stage.selecting && is_none g'.st.pending && not (has_playable_cells g')
      then Tail.end_round "empty"
      else Tail.done)
  where
    is_played : Option QuestionState → Bool
    is_played none = false
    is_played (some q) = is_current q cmd.theme cmd.q

unfoldable pub on_change_score : Command → M Tail
unfolding require_showman player add_score emit_sums
on_change_score cmd = do
  require_showman cmd.actor
  g ← get
  p ← or_fail (player g.st cmd.person_id) Error.bad_argument
  run (add_score p.id (sub64 cmd.new_sum p.score) "correction")
  run emit_sums
  pure Tail.done

unfoldable pub on_set_chooser : Command → M Tail
unfolding require_showman player set_chooser stop_kind sequential to showman start_timer
on_set_chooser cmd = do
  require_showman cmd.actor
  g ← get
  p ← or_fail (player g.st cmd.person_id) Error.bad_argument
  guard (active p) Error.bad_argument
  guard (not (g.st.stage == Stage.lobby) && not (g.st.stage == Stage.game_end)) Error.bad_state
  run (set_chooser p.id "showman")
  run (ask_again g.st.stage g.st.pending (sequential g))
  pure Tail.done
  where
    ask_again : Stage → Option Pending → Bool → Game → Game
    ask_again Stage.selecting (some pd) seq g =
        if pd.kind == PendingKind.chooser
        then with_state (λ s. record s { pending = none }) g
          ▷ stop_kind TimerKind.showman_decision
          ▷ ask_choose
        else g
    ask_again Stage.selecting none false g = stop_kind TimerKind.question_selection g ▷ ask_choose
    ask_again _ _ _ g = g

abbrev or_keep {ℓ} : {A : Type ℓ} → Option A → A → A
or_keep none a = a
or_keep (some b) a = b

-- The options before the reading speed, which alone may be refused.
abbrev patch_before : RulesPatch → Rules → Rules
patch_before o r = record r {
  oral = or_keep o.oral r.oral;
  managed = or_keep o.managed r.managed;
  display_answer_options_labels =
      or_keep o.display_answer_options_labels r.display_answer_options_labels;
  false_start = or_keep o.false_start r.false_start;
}

abbrev patch_after : RulesPatch → Rules → Rules
patch_after o r = record r {
  reading_speed = or_keep o.reading_speed r.reading_speed;
  partial_text = or_keep o.partial_text r.partial_text;
  use_appellations = or_keep o.use_appellations r.use_appellations;
}

abbrev patch_times : RulesPatch → TimeSettings → TimeSettings
patch_times o t = record t {
  button_blocking_ms = or_keep o.button_blocking_ms t.button_blocking_ms;
  partial_image_ms = or_keep o.partial_image_ms t.partial_image_ms;
}

abbrev pub speed_ok : Option ℤ → Bool
speed_ok none = true
speed_ok (some v) = leb_ℤ (pos 0) v

unfoldable pub on_set_options : Command → M Tail
unfolding require_showman
on_set_options cmd = do
  require_showman cmd.actor
  o ← or_fail cmd.options Error.bad_argument
  run (with_state (λ s. record s { rules = patch_before o s.rules }))
  guard (speed_ok o.reading_speed) Error.bad_argument
  run (with_state (λ s. record s { rules = patch_after o s.rules; times = patch_times o s.times }))
  g ← get
  run (emit_all EvType.options (Payload.options g.st.rules g.st.times))
  pure Tail.done
