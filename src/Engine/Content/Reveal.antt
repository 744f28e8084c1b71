-- ===== src/Engine/Content/Reveal.antt =====
-- internal/engine/question.go: the right answer is shown, and the question ends.
use sigame_server.Prelude.{
  List, String, [], add64, false, get_elem?, if◌then◌else◌, leb_ℤ, length, ltb_ℤ, none, pos, some,
  string_eq, suc, ℕ, ℤ, ◌%◌, ◌==◌, ◌∷◌, ◌▷◌,
}
use sigame_server.Pack.{ContentItem, Pack, round_type_eq}
use sigame_server.Pack
use sigame_server.Engine.Rules.{GameMode, mode_eq}
use sigame_server.Engine.Kinds.{QSub, TimerKind, sub_eq}
use sigame_server.Engine.State.{Player, QuestionState, active_players}
use sigame_server.Engine.Event.{EvType, Payload}
use sigame_server.Engine.Game.{
  Game, emit_all, emit_sums, room, set_chooser, set_sub, with_question, with_state,
}
use sigame_server.Engine.Timers.{start_timer, stop_all_except}
use sigame_server.Engine.Tail.{Tail, Turn, finish, goto, on_question}
use sigame_server.Engine.Content.{item_duration, view_items, wait_for_next, with_all_players}

-- Closes the button where it is open.
unfoldable pub disarm : QuestionState → Game → Game
unfolding room
disarm q g =
    if q.armed
    then with_question (λ q. record q { armed = false }) g
      ▷ room EvType.button_disarm (Payload.button_disarm_request q.id)
    else g

unfoldable pub nobody_answered : Game → Turn
unfolding disarm
nobody_answered = on_question λ q g. goto Tail.show_answer (disarm q g)

-- The longest of the reflection time and the durations of the answer's items.
unfoldable pub longest : Game → ℤ → List ContentItem → ℤ
unfolding item_duration
longest g wait [] = wait
longest g wait (it ∷ its) =
    let d = item_duration g it in longest g (if ltb_ℤ wait d then d else wait) its

abbrev pub first_text : List String → String
first_text [] = ""
first_text (s ∷ ss) = s

unfoldable pub show_answer : Game → Turn
unfolding stop_all_except disarm set_sub start_timer longest view_items
show_answer = on_question λ q g.
    let revealed =
      stop_all_except (TimerKind.round ∷ []) g
      ▷ with_state (λ s. record s { pending = none })
      ▷ disarm q
      ▷ with_question (λ q. record q { pending_answer_id = ""; pending_answer = "" })
      ▷ set_sub QSub.reveal
      ▷ emit_all EvType.right_answer
          (Payload.right_answer (first_text q.rights) (view_items q.answer_items) q.comments) in
    let wait = longest g g.st.times.reflection_ms q.answer_items in
    if g.st.rules.managed
    then wait_for_next revealed
    else if leb_ℤ wait (pos 0)
    then goto Tail.end_question revealed
    else finish (start_timer TimerKind.reflection wait "" revealed)

unfoldable pub end_question : Game → Turn
unfolding stop_all_except set_sub emit_sums
end_question = on_question λ q g.
    if q.sub == QSub.end
    then finish g
    else (let ended =
          with_question (λ q. record q { wait_next = false }) g
          ▷ stop_all_except (TimerKind.round ∷ [])
          ▷ set_sub QSub.end
          ▷ emit_all EvType.question_end (Payload.question_end q.theme_index q.question_index)
          ▷ with_state (λ s. record s { questions_played = add64 s.questions_played (pos 1) })
          ▷ emit_sums in
        elim q.appeal_queue [
          | [] ↦ goto Tail.after_question ended
          | _ ∷ _ ↦ goto Tail.process_appeals ended
        ])

-- The player after the chooser in the order of the seats, the first where there is no chooser.
unfoldable pub rotate_index : String → ℕ → ℕ → List Player → ℕ
rotate_index chooser i next [] = next
rotate_index chooser i next (p ∷ ps) =
    rotate_index chooser (suc i) (if p.id == chooser then suc i else next) ps

unfoldable pub rotate_chooser : Game → Game
unfolding rotate_index active_players set_chooser
rotate_chooser g =
    let ps = active_players g.st in
    elim (get_elem? ps (rotate_index g.st.chooser_id 0 0 ps % length ps)) [
      | none ↦ g
      | some p ↦ set_chooser p.id "rotation" g
    ]

-- Moves on after a question and its appeals.
unfoldable pub after_question : Game → Turn
unfolding rotate_chooser
after_question g = elim (g.st.appeal) [
  | some a ↦ finish g
  | none ↦
      let turned =
        (if g.st.rules.mode == GameMode.turn_taking then rotate_chooser g else g)
        ▷ with_all_players (λ p. record p { can_press = false }) in
      if g.st.round_type == Pack.RoundType.final
      then goto Tail.final_continue turned
      else goto (Tail.begin_selection false) turned
]
