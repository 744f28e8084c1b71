-- ===== src/Engine/Control.antt =====
-- internal/engine/engine.go, "showman / host controls" and "timeouts": the handlers that steer a game.
pub mod Undo
use sigame_server.Prelude.{
  Bool, List, Option, [], add64, false, if◌then◌else◌, int_eq, map, nat_eq, neg64, negsuc, none,
  not, pos, some, string_eq, sub64, true, ◌&&◌, ◌==◌, ◌||◌, ◌∷◌, ◌▷◌,
}
use sigame_server.Pack.{Pack, round_type_eq}
use sigame_server.Pack
use sigame_server.Engine.Kinds.{
  Error, PlayerState, QSub, Stage, TimerKind, pending_kind_eq, role_eq, stage_eq, sub_eq,
}
use sigame_server.Engine.State.{Outcome, Player, QuestionState, player}
use sigame_server.Engine.Command.{Command}
use sigame_server.Engine.Event.{EvType, Payload}
use sigame_server.Engine.Game.{
  Game, add_score, emit_all, emit_sums, emit_table, with_question, with_state,
}
use sigame_server.Engine.Timers.{
  pause_all_timers, resume_all_timers, stop_all_except, stop_kind, timer_of_kind,
}
use sigame_server.Engine.Monad.{M, Reply, fail, get, guard, pure, require_showman, run, ◌>>=◌, ◌>>◌}
use sigame_server.Engine.Table.{at, with_cell}
use sigame_server.Engine.Tail.{Tail, Turn, goto, on_question}
use sigame_server.Engine.Content.Reveal.{disarm}
use sigame_server.Engine.Appeal.{is_none}
use sigame_server.Engine.Flow.{reset_player_question}
use mathlib.Core.List.{reverse}

-- A handler ends with a function that ends with a call.
abbrev pub turn : (Game → Turn) → M Tail
turn f g = let (g', t) = f g in Reply.ok t g'

unfoldable pub on_pause : Command → M Tail
unfolding require_showman pause_all_timers resume_all_timers
on_pause cmd = do
  require_showman cmd.actor
  g ← get
  guard (not (g.st.stage == Stage.lobby) && not (g.st.stage == Stage.game_end)) Error.bad_state
  if same cmd.on g.st.paused then pure Tail.done else (do
    run (with_state (λ s. record s { paused = cmd.on }))
    run (emit_all EvType.pause (Payload.pause cmd.on))
    run (if cmd.on then pause_all_timers else resume_all_timers)
    pure Tail.done)
  where
    same : Bool → Bool → Bool
    same true b = b
    same false b = not b

abbrev runs : TimerKind → Game → Bool
runs kind g = not (is_none (timer_of_kind kind g))

-- Skips the rest of a question and reveals the answer.
unfoldable pub abort_question_to_answer : Game → Turn
unfolding stop_all_except disarm
abort_question_to_answer = on_question λ q g.
    stop_all_except (TimerKind.round ∷ []) g
    ▷ with_state (λ s. record s { pending = none })
    ▷ disarm q
    ▷ goto Tail.show_answer

-- Takes the score change of an outcome back, unless an appeal has done so.
unfoldable pub undo_outcome : Outcome → Game → Game
unfolding player add_score
undo_outcome o g = if o.reverted || o.delta == pos 0 then g else elim (player g.st o.person_id) [
  | none ↦ g
  | some p ↦ add_score p.id (neg64 o.delta) "correction" g
]

-- Takes the score changes of the question back, the last one first.
unfoldable pub undo_scores : List Outcome → Game → Game
unfolding undo_outcome
undo_scores [] g = g
undo_scores (o ∷ os) g = undo_scores os (undo_outcome o g)

abbrev clear_player : Player → Player
clear_player p = reset_player_question (record p { can_press = false; state = PlayerState.idle })

-- Cancels the current question and makes it available again.
unfoldable pub return_question_to_table : Game → Turn
unfolding stop_all_except disarm undo_scores emit_table emit_sums reset_player_question
return_question_to_table = on_question λ q g.
    let returned =
      stop_all_except (TimerKind.round ∷ []) g
      ▷ with_state (λ s. record s { pending = none })
      ▷ disarm q
      ▷ undo_scores (reverse q.history)
      ▷ with_cell q.theme_index q.question_index (λ c. record c { played = false })
      ▷ emit_all EvType.question_end (Payload.question_end q.theme_index q.question_index)
      ▷ with_state (λ s. record s { question = none; players = map clear_player s.players })
      ▷ emit_table
      ▷ emit_sums in
    if g.st.round_type == Pack.RoundType.final
    then goto Tail.final_continue returned
    else goto (Tail.begin_selection false) returned

abbrev skip_content : QuestionState → Game → Game
skip_content q g =
    stop_kind TimerKind.content g
    ▷ stop_kind TimerKind.media_fallback
    ▷ with_question (λ q. record q { awaiting_media_ids = false })

unfoldable pub on_next : Command → M Tail
unfolding require_showman timer_of_kind stop_kind
on_next cmd = do require_showman cmd.actor; g ← get; by_stage g g.st.stage g.st.question
  where
    in_question : Game → QuestionState → QSub → M Tail
    in_question g q QSub.content =
        if q.wait_next
          || runs TimerKind.content g
          || runs TimerKind.media_fallback g
          || q.awaiting_media_ids
        then (run (skip_content q) >> pure Tail.content_group_done)
        else fail Error.bad_state
    in_question g q QSub.reveal = run (stop_kind TimerKind.reflection) >> pure Tail.end_question
    in_question g q QSub.answering = if q.known then fail Error.bad_state else pure Tail.show_answer
    in_question g q QSub.end =
        if q.wait_next
        then (run (with_question (λ q. record q { wait_next = false })) >> pure Tail.after_question)
        else fail Error.bad_state
    in_question g q _ = fail Error.bad_state

    by_stage : Game → Stage → Option QuestionState → M Tail
    by_stage g Stage.round_intro q = pure Tail.enter_round
    by_stage g Stage.round_end q =
        run (with_state (λ s. record s { wait_next = false }))
        >> pure (Tail.start_round (add64 g.st.round_index (pos 1)))
    by_stage g Stage.question (some q) = in_question g q q.sub
    by_stage g _ q = fail Error.bad_state

-- `case 1` of `onMove`
unfoldable pub move_forward : M Tail
unfolding stop_kind abort_question_to_answer
move_forward = do g ← get; by_stage g g.st.stage g.st.question
  where
    in_question : QSub → M Tail
    in_question QSub.reveal = run (stop_kind TimerKind.reflection) >> pure Tail.end_question
    in_question QSub.end =
        run (with_question (λ q. record q { wait_next = false })) >> pure Tail.after_question
    in_question _ = turn abort_question_to_answer

    by_stage : Game → Stage → Option QuestionState → M Tail
    by_stage g Stage.round_intro q = pure Tail.enter_round
    by_stage g Stage.round_end q =
        run (with_state (λ s. record s { wait_next = false }))
        >> pure (Tail.start_round (add64 g.st.round_index (pos 1)))
    by_stage g Stage.question (some q) = in_question q.sub
    by_stage g _ q = fail Error.bad_state

-- `case -1`: a question that is not over goes back to the table.
unfoldable pub move_back : M Tail
unfolding return_question_to_table
move_back = do
  g ← get
  guard (g.st.stage == Stage.question && in_play g.st.question) Error.bad_state
  turn return_question_to_table
  where
    in_play : Option QuestionState → Bool
    in_play none = false
    in_play (some q) = not (q.sub == QSub.end)

unfoldable pub on_move : Command → M Tail
unfolding require_showman move_forward move_back stop_all_except
on_move cmd = do
  require_showman cmd.actor
  g ← get
  guard (not (g.st.stage == Stage.lobby)) Error.bad_state
  move g
  where
    move : Game → M Tail
    move g =
        if cmd.dir == pos 1
        then move_forward
        else if cmd.dir == negsuc 0
        then move_back
        else if cmd.dir == pos 2
        then pure (Tail.end_round "manual")
        else if cmd.dir == negsuc 1
        then (run (stop_all_except []) >> pure (Tail.start_round (sub64 g.st.round_index (pos 1))))
        else if cmd.dir == pos 3
        then (guard (not (is_none (at g.pack.rounds cmd.round))) Error.bad_argument
            >> (run (stop_all_except []) >> pure (Tail.start_round cmd.round)))
        else fail Error.bad_argument
