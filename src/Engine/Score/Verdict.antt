-- ===== src/Engine/Score/Verdict.antt =====
-- internal/engine/question.go, `applyOutcome`: what a verdict writes down and what it pays.
use sigame_server.Prelude.{
  Bool, IsInt64, List, String, [], add64, ap, arith, false, if◌then◌else◌, neg64, none, not, pos,
  refl, some, sym, true, ℤ, ◌&&◌, ◌++◌, ◌∙◌, ◌∷◌, ◌≡◌, ◌▷◌,
}
use sigame_server.Pack.{Float64}
use sigame_server.Engine.State.{Outcome, Player, QuestionState, player}
use sigame_server.Engine.Event.{EvType, Payload}
use sigame_server.Engine.Kinds.{PlayerState}
use sigame_server.Engine.Game.{
  Game, add_score, emit, emit_all, score_of, set_player_state, with_question,
}
use sigame_server.Engine.Table.{scaled}
use sigame_server.Engine.Score.{
  apply_outcome, cache_verdict, exclude, excluded, is_zero, outcome, score_pass, score_right,
  score_wrong,
}
use sigame_server.Engine.Score.Ledger.{add64_zero, add_score-score, score, score-write}

-- What a verdict pays: the price for a right answer, nothing for a pass, and the negated price for a
-- wrong one.
abbrev pub payment : Game → Bool → Float64 → ℤ → ℤ → ℤ
payment g true factor price_right price_wrong = scaled g price_right factor
payment g false factor price_right price_wrong =
    if is_zero factor then pos 0 else neg64 (scaled g price_wrong factor)

score_right-score :
    (id answer : String) (factor : Float64) (source : String) (price : ℤ) (g : Game) (p : Player)
    → player g.st id ≡ some p
    → IsInt64 p.score
    → score (score_right id answer factor source price g) id ≡ add64 p.score (scaled g price factor)
unfolding score_right set_player_state emit_all emit scaled player
score_right-score id answer factor source price g p h hr =
    score-write
      (λ p. record p {
        right = add64 p.right (pos 1);
        accepted_answers = p.accepted_answers ++ answer ∷ [];
      })
      id _ id (λ p. refl) (λ p. refl)
    ∙ (score-write (λ p. record p { state = PlayerState.right }) id _ id (λ p. refl) (λ p. refl)
        ∙ ((add_score-score id (scaled g price factor) "answer" (judged g) p h hr).0))
  where
    judged : Game → Game
    judged = emit_all EvType.validation (Payload.validation id answer true factor source "")

score_pass-score :
    (id answer : String) (factor : Float64) (source : String) (g : Game)
    → score (score_pass id answer factor source g) id ≡ score g id
unfolding score_pass set_player_state emit_all emit player
score_pass-score id answer factor source g =
    score-write (λ p. record p { state = PlayerState.pass }) id _ id (λ p. refl) (λ p. refl)

score_wrong-score :
    (q : QuestionState) (id answer : String) (factor : Float64) (source : String) (price : ℤ)
    (g : Game) (p : Player)
    → player g.st id ≡ some p
    → IsInt64 p.score
    → score (score_wrong q id answer factor source price g) id
      ≡ add64 p.score (neg64 (scaled g price factor))
unfolding score_wrong set_player_state emit_all emit scaled player
score_wrong-score q id answer factor source price g p h hr =
    score-write
      (λ p. record p {
        wrong = add64 p.wrong (pos 1);
        rejected_answers = p.rejected_answers ++ answer ∷ [];
      })
      id _ id (λ p. refl) (λ p. refl)
    ∙ (score-write (λ p. record p { state = PlayerState.wrong }) id _ id (λ p. refl) (λ p. refl)
        ∙ ((add_score-score id (neg64 (scaled g price factor)) "penalty" (judged g) p h hr).0))
  where
    judged : Game → Game
    judged g =
        with_question (exclude answer) g
        ▷ emit_all EvType.validation
            (Payload.validation id answer false factor source (excluded q answer))

-- The history of the current question.
abbrev pub history : Game → List Outcome
history g = elim (g.st.question) [ none ↦ [] | some q ↦ q.history ]

-- A verdict on a player on record, whose score is in the range of the integers, pays that player:
-- the price times the factor for a right answer, nothing for a pass, and the negated price for a
-- wrong one.
pub apply_outcome-score :
    (q : QuestionState) (id answer : String) (right : Bool) (factor : Float64) (source : String)
    (price_right price_wrong : ℤ) (g : Game) (p : Player)
    → player g.st id ≡ some p
    → IsInt64 p.score
    → score (apply_outcome q id answer right factor source price_right price_wrong g) id
      ≡ add64 p.score (payment g right factor price_right price_wrong)
unfolding apply_outcome
apply_outcome-score q id answer true factor source price_right price_wrong g p h hr =
    score_right-score id answer factor source price_right
      (with_question (cache_verdict answer (record { right = true; factor = factor }) g) g) p h hr
apply_outcome-score q id answer false factor source price_right price_wrong g p h hr =
    by_factor (is_zero factor)
  where
    cached : Game
    cached = with_question (cache_verdict answer (record { right = false; factor = factor }) g) g

    by_factor :
        (b : Bool)
        → score
            (if b
              then score_pass id answer factor source cached
              else score_wrong q id answer factor source price_wrong cached)
            id
          ≡ add64 p.score (if b then pos 0 else neg64 (scaled g price_wrong factor))
    by_factor true =
        score_pass-score id answer factor source cached
        ∙ (ap score_of h ∙ sym (add64_zero p.score hr))
    by_factor false = score_wrong-score q id answer factor source price_wrong cached p h hr

-- The outcome that a verdict writes down.
abbrev pub verdict_outcome : Game → String → String → Bool → Float64 → ℤ → ℤ → Outcome
verdict_outcome g id answer right factor price_right price_wrong =
    outcome id answer right factor (payment g right factor price_right price_wrong)
      (not right && is_zero factor)

-- A verdict on an answer to the current question adds one outcome to the history, with the payment.
pub apply_outcome-history :
    (q q' : QuestionState) (id answer : String) (right : Bool) (factor : Float64) (source : String)
    (price_right price_wrong : ℤ) (g : Game)
    → g.st.question ≡ some q'
    → history (apply_outcome q id answer right factor source price_right price_wrong g)
      ≡ q'.history ++ verdict_outcome g id answer right factor price_right price_wrong ∷ []
unfolding apply_outcome score_right score_pass score_wrong set_player_state emit_all emit scaled
    add_score
apply_outcome-history q q' id answer right factor source price_right price_wrong g h =
    ground (arith, h)
