-- ===== src/Engine/Input.antt =====
-- internal/engine/engine.go, question.go and stake.go: what players and the showman send while a
-- question is chosen, played and judged.
pub mod Replies
use sigame_server.Prelude.{
  Bool, Option, String, elem, false, flag, if◌then◌else◌, int_eq, nat_eq, negsuc, none, not, pos,
  some, string_eq, true, ℕ, ℤ, ◌&&◌, ◌==◌, ◌||◌, ◌▷◌,
}
use sigame_server.Pack.{answer_type_eq}
use sigame_server.Pack
use sigame_server.Engine.Kinds.{
  Error, PendingKind, PlayerState, QSub, Role, Stage, TimerKind, pending_kind_eq, role_eq, stage_eq,
  stake_mode_eq, sub_eq,
}
use sigame_server.Engine.State.{Pending, QuestionState, StakeState}
use sigame_server.Engine.Command.{Actor, Command}
use sigame_server.Engine.Event.{EvType, Payload}
use sigame_server.Engine.Game.{
  Game, emit_all, room, set_chooser, set_player_state, showman, to, with_player, with_state,
}
use sigame_server.Engine.Timers.{start_timer, stop_kind}
use sigame_server.Engine.Monad.{
  M, acting_player, get, guard, or_fail, player_actor, pure, run, ◌>>=◌, ◌>>◌,
}
use sigame_server.Engine.Table.{at, open_cell, sequential}
use sigame_server.Engine.Tail.{Tail, Turn, finish, goto}
use sigame_server.Engine.Score.{any_can_press, eligible_ids}
use sigame_server.Engine.Content.Reveal.{disarm}
use sigame_server.Engine.Final.{final_ask_delete}
use sigame_server.Engine.Appeal.Result.{ask_choose}
use sigame_server.Engine.Appeal.{is_none}

-- The question of the question stage.
abbrev pub playing : M QuestionState
playing = do
  g ← get
  guard (g.st.stage == Stage.question) Error.bad_state
  or_fail g.st.question Error.bad_state

unfoldable pub resolve_pending : String → Game → Turn
unfolding stop_kind set_chooser to showman start_timer final_ask_delete
resolve_pending id g = elim (g.st.pending) [
  | none ↦ finish g
  | some pd ↦ by_kind pd.kind (
      with_state (λ s. record s { pending = none }) g
      ▷ stop_kind TimerKind.showman_decision
      ▷ stop_kind TimerKind.player_selection)
]
  where
    by_kind : PendingKind → Game → Turn
    by_kind PendingKind.chooser g = finish (ask_choose (set_chooser id "roundStart" g))
    by_kind PendingKind.staker g = goto (Tail.stake_ask_bid id) g
    by_kind PendingKind.deleter g = finish (final_ask_delete id g)
    by_kind PendingKind.secret_transfer g = goto (Tail.secret_recipient_chosen id) g

-- Who may decide a pending selection.
abbrev pub may_select : Actor → Pending → Game → Bool
may_select a pd g =
    if pd.kind == PendingKind.secret_transfer
    then a.person_id == pd.decider_id || (a.role == Role.showman && g.st.rules.oral)
    else a.role == Role.showman

unfoldable pub on_select_player : Command → M Tail
on_select_player cmd = do
  g ← get
  pd ← or_fail g.st.pending Error.bad_state
  guard (may_select cmd.actor pd g) Error.not_allowed
  guard (elem cmd.person_id pd.candidates) Error.bad_argument
  pure (Tail.resolve_pending cmd.person_id)

abbrev index_of : ℤ → ℕ
index_of (pos i) = i
index_of (negsuc i) = 0

unfoldable pub on_choose_question : Command → M Tail
unfolding sequential stop_kind
on_choose_question cmd = do
  g ← get
  guard (g.st.stage == Stage.selecting && is_none g.st.pending) Error.bad_state
  guard (not (sequential g)) Error.bad_state
  guard
      ((cmd.actor.person_id == g.st.chooser_id && cmd.actor.role == Role.player)
        || (cmd.actor.role == Role.showman && g.st.rules.oral))
      Error.not_allowed
  th ← or_fail (at g.st.table cmd.theme) Error.bad_argument
  c ← or_fail (at th.questions cmd.q) Error.bad_argument
  guard (open_cell c && not th.removed) Error.bad_argument
  run (stop_kind TimerKind.question_selection)
  pure (Tail.start_question (index_of cmd.theme) (index_of cmd.q))

-- A pass in the auction.
abbrev pass_stakes : Command → StakeState → M Tail
pass_stakes cmd ss = do
  p ← acting_player cmd ss.current
  guard (flag p.id ss.active) Error.bad_state
  guard (not (ss.leader == p.id)) Error.not_allowed
  guard (not (ss.current == p.id && ss.stake == pos 0)) Error.not_allowed
  pure (Tail.stake_set_pass p.id)

abbrev in_button_phase : QSub → Bool
in_button_phase QSub.content = true
in_button_phase QSub.button_wait = true
in_button_phase _ = false

-- The button stays open for those who may still press.
abbrev reopen : QuestionState → Game → Game
reopen q g =
    if q.armed
    then room EvType.button_arm_request
        (Payload.button_arm_request q.id (eligible_ids g) q.thinking_remain true) g
    else g

-- A pass on the button.
abbrev pass_button : Command → QuestionState → M Tail
pass_button cmd q = do
  p ← player_actor cmd.actor
  guard (q.button && in_button_phase q.sub && p.can_press) Error.bad_state
  run (with_player p.id (λ p. record p { can_press = false }))
  run (emit_all EvType.pass (Payload.pass p.id))
  run (set_player_state p.id PlayerState.pass)
  g ← get
  if any_can_press g
      then (run (reopen q) >> pure Tail.done)
      else if q.sub == QSub.button_wait
      then (run (stop_kind TimerKind.button_pressing) >> pure Tail.nobody_answered)
      else (run (disarm q) >> pure Tail.done)

unfoldable pub on_pass : Command → M Tail
unfolding acting_player player_actor flag set_player_state any_can_press stop_kind disarm room
    eligible_ids
on_pass cmd = do q ← playing; pass q (if q.sub == QSub.stakes then q.stakes else none)
  where
    pass : QuestionState → Option StakeState → M Tail
    pass q (some ss) = pass_stakes cmd ss
    pass q none = pass_button cmd q
