-- ===== src/Engine/Input/Replies.antt =====
-- internal/engine/question.go and stake.go: answers, stakes and media of the players.
use sigame_server.Prelude.{
  Bool, List, Option, elem, false, if◌then◌else◌, int_eq, leb_ℤ, none, not, pos, pos_part, some,
  string_eq, sub64, true, ℤ, ◌&&◌, ◌-ℤ◌, ◌==◌, ◌||◌, ◌∷◌,
}
use sigame_server.Pack.{Pack, answer_type_eq}
use sigame_server.Pack
use sigame_server.Engine.Kinds.{
  Error, PlayerState, QSub, Role, Stage, StakeMode, TimerKind, role_eq, stage_eq, stake_mode_eq,
  sub_eq,
}
use sigame_server.Engine.State.{AnswerView, Player, QuestionState, StakeState, player}
use sigame_server.Engine.Command.{Command}
use sigame_server.Engine.Event.{EvType, Payload}
use sigame_server.Engine.Game.{Game, emit_all, set_player_state, showman, with_player}
use sigame_server.Engine.Timers.{stop_kind}
use sigame_server.Engine.Monad.{
  M, acting_player, fail, get, guard, player_actor, pure, run, ◌>>=◌, ◌>>◌,
}
use sigame_server.Engine.Tail.{Tail}
use sigame_server.Engine.Score.{any_text}
use sigame_server.Engine.Content.{all_media_done}
use sigame_server.Engine.Answer.{answer_from_cmd, answer_text, is_answerer, process_single_answer}
use sigame_server.Engine.Secret.{last_or}
use sigame_server.Engine.Stake.Bids.{stake_mode_allowed}
use sigame_server.Engine.Stake.{rem}
use sigame_server.Engine.Hidden.{all_hidden_answered, hidden_set_stake}
use sigame_server.Engine.Control.{turn}
use sigame_server.Engine.Input.{playing}

unfoldable pub on_answer_draft : Command → M Tail
unfolding player_actor showman
on_answer_draft cmd = do
  p ← player_actor cmd.actor
  q ← playing
  guard (q.sub == QSub.answering || q.sub == QSub.hidden_answering) Error.bad_state
  run (showman EvType.answer_draft (Payload.answer_draft p.id cmd.text))
  pure Tail.done

-- The answer of the sole answerer.
abbrev answer_single : Command → QuestionState → M Tail
answer_single cmd q = do
  guard q.known Error.bad_state
  p ← acting_player cmd q.answerer_id
  guard (p.id == q.answerer_id) Error.not_allowed
  let av = answer_from_cmd cmd
  if any_text q.pending_answer_id
      then (run (with_player p.id (λ p. record p { answer = av }))
          >> (run (emit_all EvType.player_answer (Payload.player_answer p.id av))
              >> pure Tail.done))
      else (run (stop_kind TimerKind.answering)
          >> (run (stop_kind TimerKind.solo_answering) >> turn (process_single_answer p.id av)))

abbrev preview : QuestionState → Player → AnswerView → Game → Game
preview q p av g =
    if q.answer_type == Pack.AnswerType.text
    then showman EvType.ask_validate
        (Payload.ask_validate p.id (answer_text g av) q.rights q.wrongs true false (pos 0) true) g
    else g

-- A written answer, kept until the reveal.
abbrev answer_hidden : Command → QuestionState → M Tail
answer_hidden cmd q = do
  p ← acting_player cmd ""
  g ← get
  guard (is_answerer p.id g && p.in_game) Error.not_allowed
  guard (not p.answered) Error.bad_state
  let av = answer_from_cmd cmd
  run (with_player p.id (λ p. record p { answered = true; answer = av }))
  run (set_player_state p.id PlayerState.has_answered)
  run (showman EvType.player_answer (Payload.player_answer p.id av))
  run (preview q p av)
  g' ← get
  if all_hidden_answered g'
      then (run (stop_kind TimerKind.hidden_answering) >> pure Tail.hidden_answering_done)
      else pure Tail.done

unfoldable pub on_answer : Command → M Tail
unfolding acting_player answer_from_cmd stop_kind process_single_answer is_answerer set_player_state
    showman answer_text all_hidden_answered
on_answer cmd = do q ← playing; by_sub q q.sub
  where
    by_sub : QuestionState → QSub → M Tail
    by_sub q QSub.answering = answer_single cmd q
    by_sub q QSub.hidden_answering = answer_hidden cmd q
    by_sub q _ = fail Error.bad_state

-- The price that a mode stands for; the choices are not empty here.
abbrev chosen_price : Command → List ℤ → M ℤ
chosen_price cmd choices = by_mode cmd.stake_mode choices
  where
    by_mode : StakeMode → List ℤ → M ℤ
    by_mode StakeMode.nominal (c ∷ cs) = pure c
    by_mode StakeMode.all_in (c ∷ cs) = pure (last_or c cs)
    by_mode StakeMode.stake cs = pure cmd.amount
    by_mode StakeMode.unset cs = pure cmd.amount
    by_mode _ _ = fail Error.bad_argument

abbrev set_price : Command → QuestionState → M Tail
set_price cmd q = do
  p ← acting_player cmd q.answerer_id
  guard (p.id == q.answerer_id) Error.not_allowed
  amount ← chosen_price cmd q.price_choices
  guard (elem amount q.price_choices) Error.bad_argument
  run (stop_kind TimerKind.stake_making)
  pure (Tail.secret_after_price amount)

-- A stake in range, on a step of the auction or the whole of the range.
abbrev pub stake_fits : StakeState → ℤ → Bool
stake_fits ss a =
    leb_ℤ ss.min a
    && leb_ℤ a ss.max
    && (rem (sub64 a ss.min) (pos_part ss.step) == pos 0 || a == ss.max)

abbrev set_bid : Command → StakeState → M Tail
set_bid cmd ss = do
  p ← acting_player cmd ss.current
  guard (p.id == ss.current) Error.not_allowed
  guard (stake_mode_allowed ss cmd.stake_mode) Error.bad_argument
  guard (not (cmd.stake_mode == StakeMode.stake) || stake_fits ss cmd.amount) Error.bad_argument
  pure (
      if cmd.stake_mode == StakeMode.pass
      then Tail.stake_set_pass p.id
      else Tail.stake_apply p.id cmd.stake_mode cmd.amount)

unfoldable pub on_set_stake : Command → M Tail
unfolding acting_player stop_kind hidden_set_stake ◌-ℤ◌
on_set_stake cmd = do q ← playing; by_sub q q.sub
  where
    in_stakes : QuestionState → Option StakeState → M Tail
    in_stakes q none = fail Error.bad_state
    in_stakes q (some ss) = set_bid cmd ss

    by_sub : QuestionState → QSub → M Tail
    by_sub q QSub.price_select = set_price cmd q
    by_sub q QSub.stakes = if q.hidden_all then hidden_set_stake cmd else in_stakes q q.stakes
    by_sub q _ = fail Error.bad_state

unfoldable pub on_media_completed : Command → M Tail
unfolding player all_media_done stop_kind
on_media_completed cmd = do g ← get; waiting g g.st.question
  where
    move_on : M Tail
    move_on = run (stop_kind TimerKind.media_fallback) >> pure Tail.content_group_done

    one_done : Game → Option Player → M Tail
    one_done g none = pure Tail.done
    one_done g (some p) = do
      run (with_player p.id (λ p. record p { media_done = true }))
      g' ← get
      if all_media_done g' then move_on else pure Tail.done

    waiting : Game → Option QuestionState → M Tail
    waiting g none = pure Tail.done
    waiting g (some q) =
        if g.st.stage == Stage.question
          && q.sub == QSub.content
          && q.awaiting_media_ids
          && not g.st.paused
        then (if cmd.actor.role == Role.system && cmd.person_id == ""
            then move_on
            else one_done g
                (player g.st (if cmd.person_id == "" then cmd.actor.person_id else cmd.person_id)))
        else pure Tail.done
