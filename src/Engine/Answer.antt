-- ===== src/Engine/Answer.antt =====
-- internal/engine/question.go, "answering" and "simple (button)".
pub mod Button
use sigame_server.Prelude.{
  Bool, List, Option, String, [], elem, false, if◌then◌else◌, int_eq, lookup, ltb_ℤ, none, not, pos,
  some, string_eq, true, ℤ, ◌&&◌, ◌==◌, ◌∷◌, ◌▷◌,
}
use sigame_server.Pack.{Float64, Pack, answer_type_eq}
use sigame_server.Pack
use sigame_server.Engine.Kinds.{PlayerState, QSub, TimerKind, role_eq, stage_eq, sub_eq}
use sigame_server.Engine.State.{AnswerView, Player, Point, QuestionState, player}
use sigame_server.Engine.Command.{Command}
use sigame_server.Engine.Event.{EvType, Payload}
use sigame_server.Engine.Game.{
  Game, emit_all, set_player_state, set_sub, showman, to, with_player, with_question,
}
use sigame_server.Engine.Timers.{start_timer}
use sigame_server.Engine.Table.{pack_question}
use sigame_server.Engine.Tail.{Tail, Turn, finish, goto, on_player, on_question}
use sigame_server.Engine.Score.{any_text, norm_answer, one}
use mathlib.Core.List.{foldl}

-- The duration that the question of the pack sets, or the default.
unfoldable pub answer_duration : ℤ → Game → ℤ
answer_duration def g = elim (g.st.question) [
  | none ↦ def
  | some q ↦ elim (pack_question q.theme_index q.question_index g) [
    | none ↦ def
    | some pq ↦
        if ltb_ℤ (pos 0) pq.params.answer_duration_ms then pq.params.answer_duration_ms else def
  ]
]

abbrev ask_oral : Player → QuestionState → Game → Game
ask_oral p q g =
    with_question (λ q. record q { pending_answer_id = p.id; pending_answer = "" }) g
    ▷ showman EvType.ask_validate
        (Payload.ask_validate p.id "" q.rights q.wrongs true true (pos 0) false)

-- Asks one player to answer, after the button or directly.
unfoldable pub ask_answer : String → TimerKind → ℤ → Game → Turn
unfolding player set_sub set_player_state answer_duration to showman start_timer
ask_answer id kind def = on_question λ q. on_player id λ p g.
    let dur = answer_duration def g in
    let oral = g.st.rules.oral && q.answer_type == Pack.AnswerType.text in
    finish (
      with_question (λ q. record q { answerer_id = p.id }) g
      ▷ set_sub QSub.answering
      ▷ set_player_state p.id PlayerState.answering
      ▷ to p.id EvType.ask_answer (Payload.ask_answer p.id q.answer_type dur false oral)
      ▷ (λ g. if oral then ask_oral p q g else g)
      ▷ start_timer kind dur p.id)

unfoldable pub answer_text : Game → AnswerView → String
answer_text g av = if any_text av.option_label then av.option_label else of_number av.number
  where
    of_point : Option Point → String
    of_point none = av.text
    of_point (some p) = g.host.format_point p.x p.y

    of_number : Option Float64 → String
    of_number none = of_point av.point
    of_number (some n) = g.host.format_float n

unfoldable pub answer_from_cmd : Command → AnswerView
answer_from_cmd cmd = record {
  text = cmd.text;
  option_label = cmd.option_label;
  number = cmd.number;
  point = cmd.point;
  client_right = if cmd.right_set then some cmd.right else none;
}

unfoldable pub is_answerer : String → Game → Bool
is_answerer id g = elim (g.st.question) [ none ↦ false | some q ↦ elem id q.answerers ]

-- `packQuestion(…).Params.AnswerDeviation`, with 0 where the source would fault.
abbrev deviation : QuestionState → Game → Float64
deviation q g = elim (pack_question q.theme_index q.question_index g) [
  | none ↦ 0
  | some pq ↦ pq.params.answer_deviation
]

abbrev check_number : Option Float64 → List String → QuestionState → Game → Bool
check_number (some n) (right ∷ _) q g = elim (g.host.parse_float (g.host.trim_space right)) [
  | none ↦ false
  | some want ↦ g.host.le (g.host.abs (g.host.sub n want)) (deviation q g)
]
check_number _ _ q g = false

-- The tolerance of a point: the deviation, at least 0.02, or a greater third part of the answer.
abbrev point_tolerance : List String → QuestionState → Game → Float64
point_tolerance rest q g =
    let h = g.host in
    let tol = h.max (deviation q g) 0x3f947ae147ae147b in
    elim rest [
      | [] ↦ tol
      | r ∷ _ ↦ elim (h.parse_float (h.trim_space r)) [
        | none ↦ tol
        | some r ↦ if h.lt tol r then r else tol
      ]
    ]

abbrev check_parts : Point → List String → QuestionState → Game → Bool
check_parts p (xs ∷ ys ∷ rest) q g =
    let h = g.host in
    elim (h.parse_float (h.trim_space xs)) [
      | none ↦ false
      | some x ↦ elim (h.parse_float (h.trim_space ys)) [
        | none ↦ false
        | some y ↦ h.le (h.hypot (h.sub p.x x) (h.sub p.y y)) (point_tolerance rest q g)
      ]
    ]
check_parts p _ q g = false

abbrev check_point : Option Point → List String → QuestionState → Game → Bool
check_point (some p) (right ∷ _) q g =
    check_parts p (g.host.split (g.host.trim_space right) ",") q g
check_point _ _ q g = false

abbrev check_select : String → List String → Game → Bool
check_select label [] g = false
check_select label (right ∷ _) g =
    g.host.equal_fold (g.host.trim_space label) (g.host.trim_space right)

abbrev is_yes : Option Bool → Bool
is_yes none = false
is_yes (some b) = b

-- Checks an answer that is no text; `none` leaves it to the showman.
unfoldable pub auto_check : AnswerView → QuestionState → Game → Option Bool
unfolding pack_question
auto_check av q g = by_type q.answer_type
  where
    by_type : Pack.AnswerType → Option Bool
    by_type Pack.AnswerType.select = some (check_select av.option_label q.rights g)
    by_type Pack.AnswerType.number = some (check_number av.number q.rights q g)
    by_type Pack.AnswerType.point = some (check_point av.point q.rights q g)
    by_type Pack.AnswerType.client = some (is_yes av.client_right)
    by_type _ = none

unfoldable pub ask_validate : String → String → Game → Game
unfolding set_sub showman start_timer
ask_validate id text g = elim (g.st.question) [
  | none ↦ g
  | some q ↦
      with_question (λ q. record q { pending_answer_id = id; pending_answer = text }) g
      ▷ set_sub QSub.validating
      ▷ showman EvType.ask_validate (
          Payload.ask_validate id text q.rights q.wrongs true false g.st.times.showman_decision_ms
            false)
      ▷ start_timer TimerKind.showman_decision g.st.times.showman_decision_ms g.st.showman_id
]

-- The answer of the sole answerer.
unfoldable pub process_single_answer : String → AnswerView → Game → Turn
unfolding answer_text auto_check lookup norm_answer ask_validate
process_single_answer id av = on_question λ q g.
    let text = answer_text g av in
    let shown =
      with_player id (λ p. record p { answer = av }) g
      ▷ emit_all EvType.player_answer (Payload.player_answer id av) in
    elim (auto_check av q g) [
      | some right ↦ goto (Tail.apply_verdict id text right one "auto") shown
      | none ↦ elim (lookup (norm_answer g text) q.validation_cache) [
        | some v ↦ goto (Tail.apply_verdict id text v.right v.factor "auto") shown
        | none ↦ finish (ask_validate id text shown)
      ]
    ]

unfoldable pub answer_timeout : Game → Turn
unfolding player
answer_timeout = on_question λ q g.
    if q.sub == QSub.answering && not (any_text q.pending_answer_id)
    then elim (player g.st q.answerer_id) [
      | none ↦ goto Tail.show_answer g
      | some p ↦
          emit_all EvType.player_answer (Payload.player_answer p.id dash_answer) g
          ▷ goto (Tail.apply_verdict p.id "-" false one "auto")
    ]
    else finish g
  where
    dash_answer : AnswerView
    dash_answer = record {
      text = "-";
      option_label = "";
      number = none;
      point = none;
      client_right = none;
    }
