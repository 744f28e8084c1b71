-- ===== src/Engine/Dispatch.antt =====
-- internal/engine/engine.go: `onTimeout`, `dispatch`, `Apply` and `New`.
pub mod Refusal
pub mod Outcome
pub mod Permission
use sigame_server.Prelude.{
  Bool, List, Option, String, [], false, get_elem?, if◌then◌else◌, int_eq, keep, length, nat_eq,
  none, not, some, string_eq, suc, true, zero, ℕ, ◌&&◌, ◌==◌, ◌||◌,
}
use sigame_server.Engine.Kinds.{
  Error, PendingKind, QSub, Role, Stage, TimerId, TimerKind, pending_kind_eq, role_eq, stage_eq,
  sub_eq,
}
use sigame_server.Engine.State.{Pending, QuestionState, Timer}
use sigame_server.Engine.Command.{CmdType, Command}
use sigame_server.Engine.Event.{EvType, Payload}
use sigame_server.Engine.Game.{Game, emit_players, room, showman, with_player, with_state}
use sigame_server.Engine.Timers.{find_timer, remove_timer}
use sigame_server.Engine.Monad.{
  M, fail, get, guard, player_actor, pure, require_system, run, ◌>>=◌, ◌>>◌,
}
use sigame_server.Engine.Table.{random_cell, random_index}
use sigame_server.Engine.Tail.{Tail, Turn, finish, goto}
use sigame_server.Engine.Score.{any_text, apply_verdict, is_zero, one}
use sigame_server.Engine.Content.Reveal.{after_question, end_question, nobody_answered, show_answer}
use sigame_server.Engine.Content.{content_finished, content_group_done, play_content, show_group}
use sigame_server.Engine.Answer.Button.{on_button_result, rearm}
use sigame_server.Engine.Answer.{answer_timeout, ask_answer}
use sigame_server.Engine.Secret.{secret_after_price, secret_recipient_chosen}
use sigame_server.Engine.Stake.Bids.{
  stake_advance, stake_apply, stake_set_pass, stake_timeout, stake_winner,
}
use sigame_server.Engine.Stake.{stake_ask_bid}
use sigame_server.Engine.Hidden.Answers.{
  hidden_answering_begin, hidden_answering_done, hidden_reveal_next,
}
use sigame_server.Engine.Hidden.{hidden_stakes_done, hidden_stakes_timeout}
use sigame_server.Engine.Final.Deletion.{
  final_continue, final_delete, final_delete_timeout, final_play_last_theme, on_delete_theme,
  start_final_round,
}
use sigame_server.Engine.Final.{final_next_deleter}
use sigame_server.Engine.Appeal.Result.{appeal_finish}
use sigame_server.Engine.Appeal.{is_none, on_appellate, on_vote_appeal, process_appeals}
use sigame_server.Engine.Flow.Ending.{end_game, end_round}
use sigame_server.Engine.Flow.{begin_selection, enter_round, on_start, start_round}
use sigame_server.Engine.Question.{start_question}
use sigame_server.Engine.Control.{on_move, on_next, on_pause, turn}
use sigame_server.Engine.Showman.{on_change_score, on_set_chooser, on_set_options, on_toggle}
use sigame_server.Engine.Seats.{on_kick, on_player_joined, on_player_left}
use sigame_server.Engine.Input.Replies.{
  on_answer, on_answer_draft, on_media_completed, on_set_stake,
}
use sigame_server.Engine.Input.{on_choose_question, on_pass, on_select_player, resolve_pending}
use sigame_server.Engine.Judge.{on_validate}

-- A candidate at random.
abbrev draw : List String → Game → Turn
draw cands g =
    let (i, g') = random_index (length cands) g in
    elim (get_elem? cands i) [ none ↦ finish g' | some id ↦ goto (Tail.resolve_pending id) g' ]

unfoldable pub showman_decision_timeout : Game → Turn
unfolding random_index room
showman_decision_timeout g = by_pending g.st.pending
  where
    ask_room : QuestionState → Game
    ask_room q =
        if q.sub == QSub.validating && any_text q.pending_answer_id
        then room EvType.validation_timeout
            (Payload.validation_timeout q.pending_answer_id q.pending_answer q.rights q.wrongs) g
        else g

    by_question : Option QuestionState → Turn
    by_question none = finish g
    by_question (some q) = finish (ask_room q)

    by_pending : Option Pending → Turn
    by_pending none = by_question g.st.question
    by_pending (some pd) =
        if pd.kind == PendingKind.secret_transfer
        then by_question g.st.question
        else draw pd.candidates g

-- The chooser draws among the others, where there are others.
unfoldable pub player_selection_timeout : Game → Turn
unfolding random_index
player_selection_timeout g = by_pending g.st.pending
  where
    or_all : List String → List String → List String
    or_all cands [] = cands
    or_all cands others = others

    by_pending : Option Pending → Turn
    by_pending none = finish g
    by_pending (some pd) =
        if pd.kind == PendingKind.secret_transfer
        then draw (or_all pd.candidates (keep (λ c. not (c == g.st.chooser_id)) pd.candidates)) g
        else finish g

unfoldable pub selection_timeout : Game → Turn
unfolding random_cell
selection_timeout g =
    if g.st.stage == Stage.selecting
    then (let (cell, g') = random_cell g in
        elim cell [ none ↦ finish g' | some (t, q) ↦ goto (Tail.start_question t q) g' ])
    else finish g

unfoldable pub round_timeout : Game → Turn
round_timeout g =
    let late = with_state (λ s. record s { round_timed_out = true }) g in
    if g.st.stage == Stage.selecting && is_none g.st.pending
    then goto (Tail.end_round "timeout") late
    else finish late

-- What a timer that ran out does.
unfoldable pub expire : TimerKind → Game → Turn
unfolding round_timeout selection_timeout showman_decision_timeout player_selection_timeout
    answer_timeout stake_timeout
expire TimerKind.round = round_timeout
expire TimerKind.question_selection = selection_timeout
expire TimerKind.showman_decision = showman_decision_timeout
expire TimerKind.player_selection = player_selection_timeout
expire TimerKind.theme_selection = goto Tail.final_delete_timeout
expire TimerKind.content = goto Tail.content_group_done
expire TimerKind.media_fallback = goto Tail.content_group_done
expire TimerKind.button_pressing = goto Tail.nobody_answered
expire TimerKind.answering = answer_timeout
expire TimerKind.solo_answering = answer_timeout
expire TimerKind.hidden_answering = goto Tail.hidden_answering_done
expire TimerKind.stake_making = stake_timeout
expire TimerKind.reflection = goto Tail.end_question
expire TimerKind.appellation = goto Tail.appeal_finish

abbrev find_named : Option TimerId → Game → Option Timer
find_named none g = none
find_named (some id) g = find_timer id g

unfoldable pub on_timeout : Command → M Tail
unfolding require_system find_timer remove_timer expire
on_timeout cmd = do require_system cmd.actor; g ← get; fire g (find_named cmd.timer_id g)
  where
    fire : Game → Option Timer → M Tail
    fire g none = pure Tail.done
    fire g (some t) =
        if t.paused || g.st.paused
        then pure Tail.done
        else (run (remove_timer t.id) >> turn (expire t.kind))

unfoldable pub on_player_ready : Command → M Tail
unfolding player_actor emit_players
on_player_ready cmd = do
  p ← player_actor cmd.actor
  run (with_player p.id (λ p. record p { ready = not p.ready }))
  run emit_players
  pure Tail.done

unfoldable pub on_ai_suggestion : Command → M Tail
unfolding is_zero showman
on_ai_suggestion cmd = do
  guard (cmd.actor.role == Role.system) Error.not_allowed
  run (
      showman EvType.ai_suggestion (
        Payload.ai_suggestion cmd.person_id cmd.right
          (if is_zero cmd.factor then one else cmd.factor) cmd.reason))
  pure Tail.done

-- The commands that a pause holds back.
unfoldable pub dispatch_running : CmdType → Command → M Tail
dispatch_running CmdType.choose_question cmd = on_choose_question cmd
dispatch_running CmdType.pass cmd = on_pass cmd
dispatch_running CmdType.answer cmd = on_answer cmd
dispatch_running CmdType.answer_draft cmd = on_answer_draft cmd
dispatch_running CmdType.validate cmd = on_validate cmd
dispatch_running CmdType.select_player cmd = on_select_player cmd
dispatch_running CmdType.set_stake cmd = on_set_stake cmd
dispatch_running CmdType.delete_theme cmd = on_delete_theme cmd
dispatch_running CmdType.appellate cmd = on_appellate cmd
dispatch_running CmdType.vote_appeal cmd = on_vote_appeal cmd
dispatch_running _ cmd = fail Error.bad_argument

abbrev pub unless_paused : M Tail → M Tail
unless_paused m = do g ← get; guard (not g.st.paused) Error.bad_state; m

abbrev pub is_seat_command : CmdType → Bool
is_seat_command CmdType.player_left = true
is_seat_command CmdType.player_joined = true
is_seat_command _ = false

-- The handler of a command; a pause holds back the commands of `dispatch_running`.
unfoldable pub handle : CmdType → Command → M Tail
unfolding dispatch_running
handle CmdType.timeout cmd = on_timeout cmd
handle CmdType.button_result cmd = on_button_result cmd
handle CmdType.media_completed cmd = on_media_completed cmd
handle CmdType.media_loaded cmd = pure Tail.done
handle CmdType.player_left cmd = on_player_left cmd
handle CmdType.player_joined cmd = on_player_joined cmd
handle CmdType.ai_suggestion cmd = on_ai_suggestion cmd
handle CmdType.start cmd = on_start cmd
handle CmdType.player_ready cmd = on_player_ready cmd
handle CmdType.showman_pause cmd = on_pause cmd
handle CmdType.move cmd = on_move cmd
handle CmdType.toggle cmd = on_toggle cmd
handle CmdType.change_score cmd = on_change_score cmd
handle CmdType.set_chooser cmd = on_set_chooser cmd
handle CmdType.set_options cmd = on_set_options cmd
handle CmdType.kick_player cmd = on_kick cmd
handle CmdType.next cmd = on_next cmd
handle t cmd = unless_paused (dispatch_running t cmd)

unfoldable pub dispatch : Command → M Tail
unfolding handle
dispatch cmd = do
  g ← get
  guard (not g.st.ended || is_seat_command cmd.type) Error.bad_state
  handle cmd.type cmd

-- One of the calls by which a function hands over.
unfoldable pub perform : Tail → Game → Turn
perform Tail.done = finish
perform Tail.enter_round = enter_round
perform Tail.end_game = end_game
perform Tail.start_final_round = start_final_round
perform Tail.final_continue = final_continue
perform Tail.final_next_deleter = final_next_deleter
perform Tail.final_delete_timeout = final_delete_timeout
perform Tail.final_play_last_theme = final_play_last_theme
perform Tail.show_answer = show_answer
perform Tail.end_question = end_question
perform Tail.after_question = after_question
perform Tail.process_appeals = process_appeals
perform Tail.appeal_finish = appeal_finish
perform Tail.play_content = play_content
perform Tail.show_group = show_group
perform Tail.content_group_done = content_group_done
perform Tail.content_finished = content_finished
perform Tail.nobody_answered = nobody_answered
perform Tail.rearm = rearm
perform Tail.stake_advance = stake_advance
perform Tail.hidden_stakes_done = hidden_stakes_done
perform Tail.hidden_stakes_timeout = hidden_stakes_timeout
perform Tail.hidden_answering_begin = hidden_answering_begin
perform Tail.hidden_answering_done = hidden_answering_done
perform Tail.hidden_reveal_next = hidden_reveal_next
perform (Tail.start_round idx) = start_round idx
perform (Tail.begin_selection round_start) = begin_selection round_start
perform (Tail.end_round reason) = end_round reason
perform (Tail.start_question t q) = start_question t q
perform (Tail.final_delete t by) = final_delete t by
perform (Tail.resolve_pending id) = resolve_pending id
perform (Tail.stake_ask_bid id) = stake_ask_bid id
perform (Tail.stake_apply id mode amount) = stake_apply id mode amount
perform (Tail.stake_set_pass id) = stake_set_pass id
perform (Tail.stake_winner id) = stake_winner id
perform (Tail.secret_recipient_chosen id) = secret_recipient_chosen id
perform (Tail.secret_after_price price) = secret_after_price price
perform (Tail.ask_answer id kind def) = ask_answer id kind def
perform (Tail.apply_verdict id answer right factor source) =
    apply_verdict id answer right factor source

-- Makes the calls until none is left, at most as many as the fuel.
unfoldable pub run_calls : ℕ → Turn → Turn
run_calls zero t = t
run_calls (suc fuel) (g, Tail.done) = (g, Tail.done)
run_calls (suc fuel) (g, t) = run_calls fuel (perform t g)

-- `Apply` up to the calls: the time is set, and the events of the last command are dropped.
unfoldable pub receive : Command → M Tail
unfolding dispatch
receive cmd g = dispatch cmd (record g { ev = []; now = cmd.at_ms })
