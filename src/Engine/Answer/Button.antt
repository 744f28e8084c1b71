-- ===== src/Engine/Answer/Button.antt =====
-- internal/engine/question.go: the button, and the answer of the player who won it.
use sigame_server.Prelude.{
  Bool, List, Option, [], any, false, if◌then◌else◌, negsuc, none, not, some, true, ◌&&◌, ◌==◌,
  ◌||◌, ◌∷◌, ◌▷◌,
}
use sigame_server.Engine.Kinds.{Error, QSub, Stage, TimerKind, stage_eq, sub_eq}
use sigame_server.Engine.State.{Player, QuestionState, Timer, active, active_players, player}
use sigame_server.Engine.Command.{Command}
use sigame_server.Engine.Event.{EvType, Payload}
use sigame_server.Engine.Game.{Game, emit_all, room, set_sub, with_player, with_question}
use sigame_server.Engine.Timers.{find_timer, pause_timer, resume_timer, stop_kind, timer_of_kind}
use sigame_server.Engine.Monad.{M, get, guard, or_fail, pure, require_system, run, ◌>>=◌, ◌>>◌}
use sigame_server.Engine.Tail.{Tail, Turn, finish, goto, on_question}
use sigame_server.Engine.Score.{eligible_ids, wrong_price}
use sigame_server.Engine.Content.{arm_button}
use mathlib.Core.List.{foldl}

-- The content timers, in the order in which the source visits them.
abbrev content_timers : List TimerKind
content_timers = TimerKind.content ∷ TimerKind.media_fallback ∷ []

unfoldable pub simple_begin : Game → Turn
unfolding wrong_price active_players room eligible_ids
simple_begin = on_question λ q g.
    let opened =
      foldl (λ g p. with_player p.id (λ p. record p { can_press = true }) g)
        (with_question
          (λ q. record q {
            button = true;
            cur_price_wrong = wrong_price g.st.rules.button_penalty q.price g;
            thinking_remain = g.st.times.button_pressing_ms;
          })
          g)
        (active_players g.st) in
    goto Tail.play_content (
      if g.st.rules.false_start
      then opened
      else with_question (λ q. record q { armed = true }) opened
        ▷ room EvType.button_arm_request
            (Payload.button_arm_request q.id (eligible_ids opened) (negsuc 0) false))

abbrev pause_kind : Game → TimerKind → Game
pause_kind g kind = elim (timer_of_kind kind g) [ none ↦ g | some t ↦ pause_timer t g ]

abbrev resume_kind : Game → TimerKind → Game
resume_kind g kind = elim (timer_of_kind kind g) [ none ↦ g | some t ↦ resume_timer t g ]

-- What a button win stops: the content, or the thinking time, whose rest is kept.
unfoldable pub hold_for_winner : QSub → Game → Game
unfolding timer_of_kind pause_timer
hold_for_winner QSub.content g =
    foldl pause_kind g content_timers
    ▷ emit_all EvType.content_state (Payload.content_state "paused")
hold_for_winner QSub.button_wait g = elim (timer_of_kind TimerKind.button_pressing g) [
  | none ↦ g
  | some t ↦
      let held = pause_timer t g in
      with_question
        (λ q. record q {
          thinking_remain = elim (find_timer t.id held) [
            | none ↦ q.thinking_remain
            | some u ↦ u.remaining_ms
          ];
        })
        held
]
hold_for_winner _ g = g

unfoldable pub on_button_result : Command → M Tail
unfolding require_system player hold_for_winner stop_kind
on_button_result cmd = do require_system cmd.actor; g ← get; decide g.st.question
  where
    win : QuestionState → Player → M Tail
    win q p = do
      run (with_question (λ q. record q { armed = false }))
      run (with_player p.id (λ p. record p { can_press = false }))
      run (hold_for_winner q.sub)
      g ← get
      pure (Tail.ask_answer p.id TimerKind.answering g.st.times.answering_ms)

    nobody : QuestionState → M Tail
    nobody q =
        if q.sub == QSub.button_wait
        then (run (stop_kind TimerKind.button_pressing) >> pure Tail.nobody_answered)
        else pure Tail.done

    winner : QuestionState → M Tail
    winner q = do
      g ← get
      p ← or_fail (player g.st cmd.winner_id) Error.bad_argument
      guard (active p && p.can_press) Error.bad_argument
      win q p

    decide : Option QuestionState → M Tail
    decide none = pure Tail.done
    decide (some q) = do
      g ← get
      if g.st.stage == Stage.question && q.button && q.armed && not g.st.paused
          then (if cmd.nobody then nobody q else winner q)
          else pure Tail.done

-- Lets the remaining players press again after a wrong answer.
unfoldable pub rearm : Game → Turn
unfolding set_sub timer_of_kind resume_timer eligible_ids arm_button room
rearm = on_question λ q g.
    if q.content_done
    then finish (arm_button true g)
    else (let resumed =
          with_question (λ q. record q { armed = true }) g
          ▷ set_sub QSub.content
          ▷ emit_all EvType.content_state (Payload.content_state "resumed")
          ▷ (λ g. foldl resume_kind g content_timers)
          ▷ (λ g.
              room EvType.button_arm_request
                (Payload.button_arm_request q.id (eligible_ids g) (negsuc 0) true) g) in
        if q.wait_next
          || q.awaiting_media_ids
          || any (λ kind. is_running (timer_of_kind kind resumed)) content_timers
        then finish resumed
        else goto Tail.content_group_done resumed)
  where
    is_running : Option Timer → Bool
    is_running none = false
    is_running (some t) = true
