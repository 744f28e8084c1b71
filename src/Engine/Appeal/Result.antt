-- ===== src/Engine/Appeal/Result.antt =====
-- internal/engine/appeal.go: what an upheld appeal changes, and the end of the vote.
use sigame_server.Prelude.{
  Bool, List, Option, [], add64, drop, false, get_elem?, if◌then◌else◌, ltb, map, neg64, none, not,
  pos, some, string_eq, sub64, suc, true, zero, ℕ, ◌&&◌, ◌++◌, ◌==◌, ◌∷◌, ◌▷◌,
}
use sigame_server.Engine.Rules.{GameMode, mode_eq}
use sigame_server.Engine.Kinds.{AppealKind, PlayerState, QSub, Stage, TimerKind, stage_eq, sub_eq}
use sigame_server.Engine.State.{
  Appeal, AppealRequest, Outcome, Player, QuestionState, Timer, player,
}
use sigame_server.Engine.Event.{EvType, Payload}
use sigame_server.Engine.Game.{
  Game, add_score, emit_all, emit_sums, set_chooser, set_player_state, showman, to, with_player,
  with_question, with_state,
}
use sigame_server.Engine.Timers.{resume_timer, set_timer, start_timer, stop_kind, with_timers}
use sigame_server.Engine.Table.{scaled, sequential}
use sigame_server.Engine.Score.{outcome}
use sigame_server.Engine.Tail.{Tail, Turn, finish, goto, on_question}
use mathlib.Core.List.{foldl}
use sigame_server.Engine.Appeal.{count_votes, is_none}

abbrev mark_reverted : Outcome → Outcome
mark_reverted o = record o { reverted = true }

-- Takes back the outcome of a later answerer.
unfoldable pub revert_outcome : Outcome → Game → Game
unfolding player add_score set_player_state
revert_outcome o g = elim (player g.st o.person_id) [
  | none ↦ g
  | some p ↦
      add_score p.id (neg64 o.delta) "appeal" g
      ▷ with_player p.id (λ p.
        if o.right
        then record p { right = sub64 p.right (pos 1) }
        else if o.pass
        then p
        else record p { wrong = sub64 p.wrong (pos 1) })
      ▷ set_player_state p.id PlayerState.idle
]

-- Takes back what stands behind the contested outcome.
unfoldable pub revert_later : List Outcome → Game → Game
unfolding revert_outcome
revert_later [] g = g
revert_later (o ∷ os) g = revert_later os (if o.reverted then g else revert_outcome o g)

-- The history with the contested outcome, and all behind it where `all` holds, marked reverted.
abbrev pub revert_history : Bool → ℕ → List Outcome → List Outcome
revert_history later i [] = []
revert_history later zero (o ∷ os) = mark_reverted o ∷ (if later then map mark_reverted os else os)
revert_history later (suc i) (o ∷ os) = o ∷ revert_history later i os

-- The new outcome of an answer that the vote accepted.
unfoldable pub accept_answer : QuestionState → Player → Outcome → Game → Game
unfolding scaled add_score set_player_state
accept_answer q p o g =
    let price = if q.hidden_all then p.stake else q.cur_price_right in
    let delta = scaled g price o.factor in
    with_player p.id
      (λ p. record p {
        wrong = sub64 p.wrong (pos 1);
        right = add64 p.right (pos 1);
        accepted_answers = p.accepted_answers ++ o.answer ∷ [];
      })
      g
    ▷ emit_all EvType.validation (Payload.validation p.id o.answer true o.factor "appeal" "")
    ▷ add_score p.id delta "appeal"
    ▷ set_player_state p.id PlayerState.right

unfoldable pub reject_answer : QuestionState → Player → Outcome → Game → Game
unfolding scaled add_score set_player_state
reject_answer q p o g =
    let delta = neg64 (scaled g q.cur_price_wrong o.factor) in
    with_player p.id
      (λ p. record p {
        right = sub64 p.right (pos 1);
        wrong = add64 p.wrong (pos 1);
        rejected_answers = p.rejected_answers ++ o.answer ∷ [];
      })
      g
    ▷ emit_all EvType.validation (Payload.validation p.id o.answer false o.factor "appeal" "")
    ▷ add_score p.id delta "appeal"
    ▷ set_player_state p.id PlayerState.wrong

-- The outcome that replaces the contested one.
abbrev pub replacement : AppealKind → QuestionState → Player → Outcome → Game → Outcome
replacement AppealKind.for q p o g =
    outcome p.id o.answer true o.factor
      (scaled g (if q.hidden_all then p.stake else q.cur_price_right) o.factor) false
replacement AppealKind.against q p o g =
    outcome p.id o.answer false o.factor (neg64 (scaled g q.cur_price_wrong o.factor)) false

abbrev flip_answer : AppealKind → QuestionState → Player → Outcome → ℕ → Game → Game
flip_answer AppealKind.for q p o i g =
    accept_answer q p o g ▷ (λ g. if q.hidden then g else revert_later (drop (suc i) q.history) g)
flip_answer AppealKind.against q p o i g = reject_answer q p o g

abbrev pub is_for : AppealKind → Bool
is_for AppealKind.for = true
is_for AppealKind.against = false

-- Flips the contested outcome; tells whether the chooser changed.
unfoldable pub appeal_apply : Appeal → Game → Bool × Game
unfolding player add_score accept_answer reject_answer revert_later scaled set_chooser
appeal_apply a g = elim (g.st.question) [
  | none ↦ (false, g)
  | some q ↦ elim (get_elem? q.history a.outcome_idx) [ none ↦ (false, g) | some o ↦ contested q o ]
]
  where
    flipped : QuestionState → Outcome → Player → Game
    flipped q o p =
        add_score p.id (neg64 o.delta) "appeal" g
        ▷ flip_answer a.kind q p o a.outcome_idx
        ▷ with_question (λ q'. record q' {
          history =
              revert_history (is_for a.kind && not q.hidden) a.outcome_idx q'.history
              ++ replacement a.kind q p o g ∷ [];
        })

    contested : QuestionState → Outcome → Bool × Game
    contested q o = elim (player g.st o.person_id) [
      | none ↦ (false, g)
      | some p ↦
          if is_for a.kind
            && g.st.rules.mode == GameMode.classic
            && not q.hidden
            && not (g.st.chooser_id == p.id)
          then (true, set_chooser p.id "appeal" (flipped q o p))
          else (false, flipped q o p)
    ]

-- Frozen timers go on, or stay for the showman to resume.
abbrev pub thaw : Game → Timer → Game
thaw g t =
    if t.frozen
    then (if g.st.paused
        then with_timers (set_timer (record t { frozen = false })) g
        else resume_timer t g)
    else g

abbrev pub ask_choose : Game → Game
ask_choose g =
    let dur = g.st.times.question_selection_ms in
    let ask = Payload.ask_choose g.st.chooser_id dur in
    to g.st.chooser_id EvType.ask_choose ask g
    ▷ (λ g. if g.st.rules.oral then showman EvType.ask_choose ask g else g)
    ▷ (λ g. start_timer TimerKind.question_selection dur g.st.chooser_id g)

abbrev pub is_upheld : Appeal → Bool
is_upheld a = let (f, ag) = count_votes a.votes in if is_for a.kind then ltb ag f else ltb f ag

-- What goes on after the last appeal of the queue.
abbrev pub resume_game : Bool → QuestionState → Game → Turn
resume_game changed q g =
    let thawed = foldl thaw g g.st.timers in
    if g.st.stage == Stage.question && q.sub == QSub.end
    then goto Tail.after_question thawed
    else if changed && g.st.stage == Stage.selecting && is_none g.st.pending && not (sequential g)
    then finish (ask_choose (stop_kind TimerKind.question_selection thawed))
    else finish thawed

-- The result is announced and the appeal is gone.
abbrev pub close_appeal : Appeal → Game → Game
close_appeal a g =
    let (f, ag) = count_votes a.votes in
    emit_all EvType.appeal_result (Payload.appeal_result a.kind a.answerer_id (is_upheld a) f ag) g
    ▷ with_state (λ s. record s { appeal = none })
    ▷ emit_sums

abbrev pub next_appeal : Bool → QuestionState → List AppealRequest → Game → Turn
next_appeal changed q [] g = resume_game changed q g
next_appeal changed q (_ ∷ _) g = goto Tail.process_appeals g

abbrev pub settle_appeal : Appeal → Bool × Game → Turn
settle_appeal a r = on_question (λ q g. next_appeal (r.0) q q.appeal_queue g) (close_appeal a (r.1))

abbrev pub tally : Option Appeal → Game → Turn
tally none g = finish g
tally (some a) g =
    let stopped = stop_kind TimerKind.appellation g in
    settle_appeal a (if is_upheld a then appeal_apply a stopped else (false, stopped))

-- Tallies the votes, applies the result and resumes the game.
unfoldable pub appeal_finish : Game → Turn
unfolding stop_kind count_votes appeal_apply emit_sums resume_timer sequential to showman
    start_timer
appeal_finish g = tally g.st.appeal g
