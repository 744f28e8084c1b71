-- ===== src/Engine/Judge.antt =====
-- internal/engine/question.go: `onValidate`, the verdict of the showman or of the room.
use sigame_server.Prelude.{
  Bool, String, false, if◌then◌else◌, insert, int_eq, nat_eq, not, string_eq, true, ◌&&◌, ◌==◌,
  ◌||◌,
}
use sigame_server.Pack.{Float64}
use sigame_server.Engine.Kinds.{Error, QSub, Role, Stage, TimerKind, role_eq, stage_eq, sub_eq}
use sigame_server.Engine.State.{QuestionState, player}
use sigame_server.Engine.Command.{Command}
use sigame_server.Engine.Game.{with_question}
use sigame_server.Engine.Timers.{stop_kind}
use sigame_server.Engine.Monad.{M, get, guard, or_fail, pure, run, ◌>>=◌, ◌>>◌}
use sigame_server.Engine.Tail.{Tail}
use sigame_server.Engine.Score.{any_text, apply_outcome, is_negative, is_zero, one}
use sigame_server.Engine.Answer.{is_answerer}
use sigame_server.Engine.Hidden.Answers.{hidden_score}

-- The factor that a command means: 1 where it says nothing.
unfoldable pub factor_of : Command → Float64
unfolding is_zero
factor_of cmd = if cmd.factor_zero then 0 else if is_zero cmd.factor then one else cmd.factor

abbrev source_of : Command → String
source_of cmd = if cmd.source == "" then "showman" else cmd.source

-- A custom question is scored by hand, as often as the showman likes.
abbrev score_custom : Command → QuestionState → M Tail
score_custom cmd q = do
  g ← get
  p ← or_fail (player g.st cmd.person_id) Error.bad_argument
  run (
      apply_outcome q p.id cmd.text cmd.right (factor_of cmd) (source_of cmd) q.cur_price_right
        q.cur_price_wrong)
  pure Tail.done

abbrev before_reveal : QSub → Bool
before_reveal QSub.hidden_answering = true
before_reveal QSub.stakes = true
before_reveal QSub.content = true
before_reveal _ = false

-- A verdict on a written answer is kept until the reveal.
abbrev pre_verdict : Command → M Tail
pre_verdict cmd = do
  g ← get
  p ← or_fail (player g.st cmd.person_id) Error.bad_argument
  guard (is_answerer cmd.person_id g) Error.bad_argument
  run (
      with_question (λ q. record q {
        pre_verdicts =
            insert cmd.person_id (record { right = cmd.right; factor = factor_of cmd })
              q.pre_verdicts;
      }))
  pure Tail.done

abbrev names_pending : Command → QuestionState → Bool
names_pending cmd q = cmd.person_id == "" || cmd.person_id == q.pending_answer_id

abbrev judge_hidden : Command → QuestionState → M Tail
judge_hidden cmd q = if before_reveal q.sub then pre_verdict cmd else (do
  guard (q.sub == QSub.validating && names_pending cmd q) Error.bad_state
  run (stop_kind TimerKind.showman_decision)
  run (hidden_score q.pending_answer_id q.pending_answer cmd.right (factor_of cmd) (source_of cmd))
  pure Tail.hidden_reveal_next)

abbrev judge_single : Command → QuestionState → M Tail
judge_single cmd q = do
  guard (any_text q.pending_answer_id && (q.sub == QSub.validating || q.sub == QSub.answering))
      Error.bad_state
  guard (names_pending cmd q) Error.bad_argument
  run (stop_kind TimerKind.showman_decision)
  run (stop_kind TimerKind.answering)
  run (stop_kind TimerKind.solo_answering)
  pure (
      Tail.apply_verdict q.pending_answer_id q.pending_answer cmd.right (factor_of cmd)
        (source_of cmd))

unfoldable pub on_validate : Command → M Tail
unfolding player factor_of is_negative apply_outcome is_answerer insert stop_kind hidden_score
on_validate cmd = do
  guard (cmd.actor.role == Role.showman || cmd.actor.role == Role.system) Error.not_allowed
  g ← get
  guard (g.st.stage == Stage.question) Error.bad_state
  q ← or_fail g.st.question Error.bad_state
  guard (not (is_negative (factor_of cmd))) Error.bad_argument
  if not q.known && q.sub == QSub.answering
      then score_custom cmd q
      else if q.hidden
      then judge_hidden cmd q
      else judge_single cmd q
