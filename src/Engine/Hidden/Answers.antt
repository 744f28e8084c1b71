-- ===== src/Engine/Hidden/Answers.antt =====
-- internal/engine/hidden.go: hidden answers and their reveal.
use sigame_server.Prelude.{
  Bool, List, Option, String, [], drop, false, if◌then◌else◌, lookup, none, not, some, suc, true,
  zero, ℕ, ℤ, ◌==◌, ◌∷◌, ◌▷◌,
}
use sigame_server.Pack.{Float64}
use sigame_server.Engine.Rules.{Penalty}
use sigame_server.Engine.Kinds.{PlayerState, QSub, StakeMode, TimerKind, sub_eq}
use sigame_server.Engine.State.{AnswerView, Player, QuestionState, Validation, active, player}
use sigame_server.Engine.Event.{EvType, Payload}
use sigame_server.Engine.Game.{Game, emit_all, set_player_state, set_sub, to, with_question}
use sigame_server.Engine.Timers.{start_timer}
use sigame_server.Engine.Tail.{Tail, Turn, finish, goto, on_player, on_question}
use sigame_server.Engine.Score.{apply_outcome, norm_answer, one, wrong_price}
use sigame_server.Engine.Answer.{answer_duration, answer_text, ask_validate, auto_check}

abbrev is_here : Option Player → Bool
is_here none = false
is_here (some p) = active p

abbrev ask_hidden_answer : QuestionState → ℤ → String → Game → Game
ask_hidden_answer q dur id g =
    set_player_state id PlayerState.answering g
    ▷ to id EvType.ask_answer (Payload.ask_answer id q.answer_type dur true false)

-- Asks each active answerer, and counts them.
unfoldable pub ask_hidden_answers : QuestionState → ℤ → ℕ → List String → Game → ℕ × Game
unfolding player set_player_state to
ask_hidden_answers q dur asked [] g = (asked, g)
ask_hidden_answers q dur asked (id ∷ rest) g =
    let here = is_here (player g.st id) in
    ask_hidden_answers q dur (if here then suc asked else asked) rest
      (if here then ask_hidden_answer q dur id g else g)

unfoldable pub hidden_answering_begin : Game → Turn
unfolding answer_duration ask_hidden_answers set_sub start_timer
hidden_answering_begin = on_question λ q g.
    let dur = answer_duration g.st.times.hidden_answering_ms g in
    begun dur (ask_hidden_answers q dur 0 q.answerers g)
  where
    begun : ℤ → ℕ × Game → Turn
    begun dur (zero, g) = goto Tail.show_answer g
    begun dur (suc n, g) = finish (
        set_sub QSub.hidden_answering g
        ▷ emit_all EvType.final_think (Payload.final_think dur)
        ▷ start_timer TimerKind.hidden_answering dur "")

unfoldable pub hidden_answering_done : Game → Turn
hidden_answering_done = on_question λ q g.
    if q.sub == QSub.hidden_answering
    then goto Tail.hidden_reveal_next (with_question (λ q. record q { reveal_idx = 0 }) g)
    else finish g

-- Applies one revealed verdict, for the price or for the stake.
unfoldable pub hidden_score : String → String → Bool → Float64 → String → Game → Game
unfolding player wrong_price apply_outcome
hidden_score id answer right factor source g = elim (g.st.question) [
  | none ↦ g
  | some q ↦ elim (player g.st id) [
    | none ↦ g
    | some p ↦
        let cleared =
          with_question (λ q. record q { pending_answer_id = ""; pending_answer = "" }) g in
        if q.hidden_all
        then emit_all EvType.person_stake (Payload.person_stake id StakeMode.stake p.stake false)
            cleared
          ▷ apply_outcome q id answer right factor source p.stake
              (wrong_price Penalty.subtract p.stake g)
        else apply_outcome q id answer right factor source q.cur_price_right q.cur_price_wrong
            cleared
  ]
]

-- How the next answer is settled.
pub data Reveal : Type 0 where
  skip : Reveal
  score : Bool → Float64 → String → Reveal
  ask : Reveal

abbrev verdict_of : Option Validation → String → Reveal → Reveal
verdict_of none source other = other
verdict_of (some v) source other = Reveal.score v.right v.factor source

unfoldable pub reveal_of : QuestionState → Player → Game → Reveal
unfolding auto_check lookup norm_answer answer_text
reveal_of q p g =
    if not p.answered
    then (if active p then Reveal.score false one "auto" else Reveal.skip)
    else elim (auto_check p.answer q g) [
      | some right ↦ Reveal.score right one "auto"
      | none ↦ verdict_of (lookup p.id q.pre_verdicts) "showman" (
          verdict_of (lookup (norm_answer g (answer_text g p.answer)) q.validation_cache) "auto"
            Reveal.ask)
    ]

abbrev dash : AnswerView
dash = record { text = "-"; option_label = ""; number = none; point = none; client_right = none }

abbrev show_reveal : Player → Game → Game
show_reveal p =
    emit_all EvType.player_answer
      (Payload.player_answer p.id (if p.answered then p.answer else dash))

abbrev revealed_text : Player → Game → String
revealed_text p g = if p.answered then answer_text g p.answer else "-"

-- Reveals answers in the order of the seats until one needs the showman.
unfoldable pub reveal_loop : List String → Game → Turn
unfolding player reveal_of hidden_score ask_validate
reveal_loop [] g = goto Tail.show_answer g
reveal_loop (id ∷ rest) g =
    step (λ g. reveal_loop rest g)
      (with_question (λ q. record q { reveal_idx = suc q.reveal_idx }) g)
  where
    settle : (Game → Turn) → Player → Game → Reveal → Turn
    settle more p g Reveal.skip = more g
    settle more p g (Reveal.score right factor source) =
        more (hidden_score p.id (revealed_text p g) right factor source (show_reveal p g))
    settle more p g Reveal.ask = finish (ask_validate p.id (revealed_text p g) (show_reveal p g))

    step : (Game → Turn) → Game → Turn
    step more = on_question λ q. on_player id λ p g. settle more p g (reveal_of q p g)

unfoldable pub hidden_reveal_next : Game → Turn
unfolding reveal_loop
hidden_reveal_next = on_question λ q g. reveal_loop (drop q.reveal_idx q.answerers) g
