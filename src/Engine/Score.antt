-- ===== src/Engine/Score.antt =====
-- internal/engine/question.go: prices, verdicts and the score of an answer.
pub mod Verdict
pub mod Ledger
use sigame_server.Prelude.{
  Bool, List, String, [], add64, false, if◌then◌else◌, insert, keep, leb, length, ltb, map, nat_eq,
  neg64, none, not, pos, some, string_eq, true, ℤ, ◌&&◌, ◌++◌, ◌+◌, ◌==◌, ◌||◌, ◌∷◌, ◌▷◌,
}
use sigame_server.Pack.{Float64, Pack, answer_type_eq}
use sigame_server.Pack
use sigame_server.Engine.Rules.{GameMode, Penalty, mode_eq, penalty_eq}
use sigame_server.Engine.Kinds.{PlayerState}
use sigame_server.Engine.State.{Outcome, QuestionState, Validation, active, active_players, player}
use sigame_server.Engine.Event.{EvType, Payload}
use sigame_server.Engine.Game.{
  Game, add_score, emit_all, set_chooser, set_player_state, with_player, with_question,
}
use sigame_server.Engine.Table.{lowest_score_players, scaled}
use sigame_server.Engine.Tail.{Tail, Turn, goto, on_question}

-- Both zeros of float64 compare equal to 0.
unfoldable pub is_zero : Float64 → Bool
is_zero f = f == 0 || f == 0x8000000000000000

-- The float64 that is 1.
abbrev pub one : Float64
one = 0x3ff0000000000000

-- `f < 0`: the sign bit is set, and the value is neither a zero nor a NaN.
unfoldable pub is_negative : Float64 → Bool
is_negative f = ltb 0x8000000000000000 f && leb f 0xfff0000000000000

unfoldable pub wrong_price : Penalty → ℤ → Game → ℤ
wrong_price class price g =
    if g.st.rules.ignore_wrong || class == Penalty.free then pos 0 else price

-- The chooser, or the active player with the lowest score, or nobody.
unfoldable pub current_chooser : Game → String
unfolding player lowest_score_players
current_chooser g =
    let lowest : String = elim (lowest_score_players g) [ [] ↦ "" | l ∷ ls ↦ l.id ] in
    elim (player g.st g.st.chooser_id) [
      | none ↦ lowest
      | some p ↦ if active p then p.id else lowest
    ]

unfoldable pub norm_answer : Game → String → String
norm_answer g s = g.host.to_lower (g.host.trim_space s)

abbrev pub any_text : String → Bool
any_text s = not (s == "")

abbrev pub with_history : Outcome → QuestionState → QuestionState
with_history o q = record q { history = q.history ++ o ∷ [] }

-- A verdict on a text is remembered for the same answer of another player.
abbrev pub cache_verdict : String → Validation → Game → QuestionState → QuestionState
cache_verdict answer v g q =
    if q.answer_type == Pack.AnswerType.text && any_text answer && not (answer == "-")
    then record q { validation_cache = insert (norm_answer g answer) v q.validation_cache }
    else q

abbrev pub outcome : String → String → Bool → Float64 → ℤ → Bool → Outcome
outcome id answer right factor delta pass = record {
  person_id = id;
  answer = answer;
  right = right;
  factor = factor;
  delta = delta;
  pass = pass;
  reverted = false;
}

unfoldable pub score_right : String → String → Float64 → String → ℤ → Game → Game
unfolding scaled add_score set_player_state
score_right id answer factor source price g =
    let delta = scaled g price factor in
    g
    ▷ emit_all EvType.validation (Payload.validation id answer true factor source "")
    ▷ add_score id delta "answer"
    ▷ set_player_state id PlayerState.right
    ▷ with_player id (λ p. record p {
      right = add64 p.right (pos 1);
      accepted_answers = p.accepted_answers ++ answer ∷ [];
    })
    ▷ with_question (with_history (outcome id answer true factor delta false))

unfoldable pub score_pass : String → String → Float64 → String → Game → Game
unfolding set_player_state
score_pass id answer factor source g =
    g
    ▷ emit_all EvType.validation (Payload.validation id answer false 0 source "")
    ▷ set_player_state id PlayerState.pass
    ▷ with_question (with_history (outcome id answer false factor (pos 0) true))

-- The option that a wrong answer of a select question rules out.
abbrev pub excluded : QuestionState → String → String
excluded q answer =
    if q.answer_type == Pack.AnswerType.select && any_text answer then answer else ""

abbrev pub exclude : String → QuestionState → QuestionState
exclude answer q =
    if q.answer_type == Pack.AnswerType.select && any_text answer
    then record q { excluded_options = insert answer true q.excluded_options }
    else q

unfoldable pub score_wrong : QuestionState → String → String → Float64 → String → ℤ → Game → Game
unfolding scaled add_score set_player_state
score_wrong q id answer factor source price g =
    let delta = neg64 (scaled g price factor) in
    g
    ▷ with_question (exclude answer)
    ▷ emit_all EvType.validation
        (Payload.validation id answer false factor source (excluded q answer))
    ▷ add_score id delta "penalty"
    ▷ set_player_state id PlayerState.wrong
    ▷ with_player id (λ p. record p {
      wrong = add64 p.wrong (pos 1);
      rejected_answers = p.rejected_answers ++ answer ∷ [];
    })
    ▷ with_question (with_history (outcome id answer false factor delta false))

-- Scores one answer and records it in the history of the question.
unfoldable pub apply_outcome :
    QuestionState → String → String → Bool → Float64 → String → ℤ → ℤ → Game → Game
unfolding score_right score_pass score_wrong is_zero
apply_outcome q id answer right factor source price_right price_wrong g =
    let cached =
      with_question (cache_verdict answer (record { right = right; factor = factor }) g) g in
    if right
    then score_right id answer factor source price_right cached
    else if is_zero factor
    then score_pass id answer factor source cached
    else score_wrong q id answer factor source price_wrong cached

unfoldable pub eligible_ids : Game → List String
unfolding active_players
eligible_ids g = map (λ p. p.id) (keep (λ p. p.can_press) (active_players g.st))

unfoldable pub any_can_press : Game → Bool
unfolding eligible_ids
any_can_press g = elim (eligible_ids g) [ [] ↦ false | _ ∷ _ ↦ true ]

-- What the code does after a wrong verdict on the sole answerer.
unfoldable pub after_wrong : String → QuestionState → Game → Turn
unfolding any_can_press
after_wrong id q g =
    let barred = with_player id (λ p. record p { can_press = false }) g in
    if q.answer_type == Pack.AnswerType.select
      && leb (length q.options) (length q.excluded_options + 1)
    then goto Tail.show_answer g
    else if q.button
    then (if any_can_press barred then goto Tail.rearm barred else goto Tail.show_answer barred)
    else goto Tail.show_answer g

-- Finishes the answer of the sole answerer.
unfoldable pub apply_verdict : String → String → Bool → Float64 → String → Game → Turn
unfolding apply_outcome after_wrong set_chooser
apply_verdict id answer right factor source = on_question λ q g.
    let scored =
      with_question (λ q. record q { pending_answer_id = ""; pending_answer = "" }) g
      ▷ apply_outcome q id answer right factor source q.cur_price_right q.cur_price_wrong in
    if right
    then goto Tail.show_answer (
        if g.st.rules.mode == GameMode.classic && q.button
        then set_chooser id "rightAnswer" scored
        else scored)
    else on_question (λ q g. after_wrong id q g) scored
