-- ===== src/Engine/Dispatch/Outcome.antt =====
-- internal/engine/engine.go, `Apply` and `dispatch`: a command that is refused, and one that is held.
use sigame_server.Prelude.{Bool, [], ap, arith, false, not, refl, true, ℤ, ◌≡◌}
use sigame_server.Engine.Command.{CmdType, Command}
use sigame_server.Engine.Kinds.{Error}
use sigame_server.Engine.Tail.{Tail}
use sigame_server.Engine.Game.{Game}
use sigame_server.Engine.Monad.{Reply}
use sigame_server.Engine.Dispatch.{dispatch, dispatch_running, handle, receive}
use sigame_server.Engine.Dispatch.Refusal.{
  Keeps, Keeps-guard, on_ai_suggestion-Keeps, on_answer-Keeps, on_answer_draft-Keeps,
  on_appellate-Keeps, on_button_result-Keeps, on_change_score-Keeps, on_choose_question-Keeps,
  on_delete_theme-Keeps, on_kick-Keeps, on_media_completed-Keeps, on_move-Keeps, on_next-Keeps,
  on_pass-Keeps, on_pause-Keeps, on_player_joined-Keeps, on_player_left-Keeps,
  on_player_ready-Keeps, on_select_player-Keeps, on_set_chooser-Keeps, on_set_stake-Keeps,
  on_start-Keeps, on_timeout-Keeps, on_toggle-Keeps, on_validate-Keeps, on_vote_appeal-Keeps,
}

abbrev pub is_options : CmdType → Bool
is_options CmdType.set_options = true
is_options _ = false

dispatch_running-Keeps :
    (t : CmdType) (cmd : Command) (g : Game) → Keeps g (dispatch_running t cmd g)
unfolding dispatch_running
dispatch_running-Keeps CmdType.choose_question cmd g = on_choose_question-Keeps cmd g
dispatch_running-Keeps CmdType.pass cmd g = on_pass-Keeps cmd g
dispatch_running-Keeps CmdType.answer cmd g = on_answer-Keeps cmd g
dispatch_running-Keeps CmdType.answer_draft cmd g = on_answer_draft-Keeps cmd g
dispatch_running-Keeps CmdType.validate cmd g = on_validate-Keeps cmd g
dispatch_running-Keeps CmdType.select_player cmd g = on_select_player-Keeps cmd g
dispatch_running-Keeps CmdType.set_stake cmd g = on_set_stake-Keeps cmd g
dispatch_running-Keeps CmdType.delete_theme cmd g = on_delete_theme-Keeps cmd g
dispatch_running-Keeps CmdType.appellate cmd g = on_appellate-Keeps cmd g
dispatch_running-Keeps CmdType.vote_appeal cmd g = on_vote_appeal-Keeps cmd g
dispatch_running-Keeps _ cmd g = refl

handle-Keeps :
    (t : CmdType) (cmd : Command) (g : Game) → is_options t ≡ false → Keeps g (handle t cmd g)
unfolding handle
handle-Keeps CmdType.timeout cmd g h = on_timeout-Keeps cmd g
handle-Keeps CmdType.button_result cmd g h = on_button_result-Keeps cmd g
handle-Keeps CmdType.media_completed cmd g h = on_media_completed-Keeps cmd g
handle-Keeps CmdType.media_loaded cmd g h = tt
handle-Keeps CmdType.player_left cmd g h = on_player_left-Keeps cmd g
handle-Keeps CmdType.player_joined cmd g h = on_player_joined-Keeps cmd g
handle-Keeps CmdType.ai_suggestion cmd g h = on_ai_suggestion-Keeps cmd g
handle-Keeps CmdType.start cmd g h = on_start-Keeps cmd g
handle-Keeps CmdType.player_ready cmd g h = on_player_ready-Keeps cmd g
handle-Keeps CmdType.showman_pause cmd g h = on_pause-Keeps cmd g
handle-Keeps CmdType.move cmd g h = on_move-Keeps cmd g
handle-Keeps CmdType.toggle cmd g h = on_toggle-Keeps cmd g
handle-Keeps CmdType.change_score cmd g h = on_change_score-Keeps cmd g
handle-Keeps CmdType.set_chooser cmd g h = on_set_chooser-Keeps cmd g
handle-Keeps CmdType.set_options cmd g h = ground arith
handle-Keeps CmdType.kick_player cmd g h = on_kick-Keeps cmd g
handle-Keeps CmdType.next cmd g h = on_next-Keeps cmd g
handle-Keeps t cmd g h =
    Keeps-guard (not g.st.paused) Error.bad_state (dispatch_running t cmd) g
      (dispatch_running-Keeps t cmd g)

-- What a refusal of a command leaves: the state, and no event.
abbrev pub Refused : Game → Reply Tail → Type 0
Refused g (Reply.ok t g') = Unit {0}
Refused g (Reply.err e g') = (g'.st ≡ g.st) × (g'.ev ≡ [])

Refused-Keeps :
    (g : Game) (at_ms : ℤ) (r : Reply Tail)
    → Keeps (record g { ev = []; now = at_ms }) r
    → Refused g r
Refused-Keeps g at_ms (Reply.ok t g') h = tt
Refused-Keeps g at_ms (Reply.err e g') h = (ap (λ x. x.st) h, ap (λ x. x.ev) h)

-- A command of any type but set_options that is refused leaves the state as it was, and no event.
pub receive-Refused :
    (cmd : Command) (g : Game) → is_options cmd.type ≡ false → Refused g (receive cmd g)
unfolding receive dispatch
receive-Refused cmd g h = Refused-Keeps g cmd.at_ms (receive cmd g) (
    Keeps-guard _ Error.bad_state (handle cmd.type cmd) started
      (handle-Keeps cmd.type cmd started h))
  where
    started : Game
    started = record g { ev = []; now = cmd.at_ms }
