-- ===== src/Engine/Hidden.antt =====
-- internal/engine/hidden.go: written answers of several players, revealed one by one.
pub mod Answers
use sigame_server.Prelude.{
  Bool, List, String, [], all, any, false, if◌then◌else◌, int_eq, keep, leb_ℤ, ltb_ℤ, none, not,
  pos, some, string_eq, suc, true, zero, ℕ, ℤ, ◌&&◌, ◌++◌, ◌==◌, ◌||◌, ◌∷◌, ◌▷◌,
}
use sigame_server.Pack.{Pack, round_type_eq}
use sigame_server.Pack
use sigame_server.Engine.Kinds.{Error, PlayerState, QSub, StakeMode, TimerKind, sub_eq}
use sigame_server.Engine.State.{Player, active, active_players, player}
use sigame_server.Engine.Command.{Command}
use sigame_server.Engine.Event.{Audience, EvType, Payload}
use sigame_server.Engine.Game.{
  Game, emit, set_player_state, set_sub, showman, to, with_player, with_question,
}
use sigame_server.Engine.Timers.{start_timer, stop_kind}
use sigame_server.Engine.Monad.{M, acting_player, fail, get, guard, pure, run, ◌>>=◌, ◌>>◌}
use sigame_server.Engine.Tail.{Tail, Turn, finish, goto, on_question}
use sigame_server.Engine.Score.{wrong_price}
use sigame_server.Engine.Answer.{is_answerer}
use mathlib.Core.List.{foldl}

abbrev enter_game : Game → Player → Game
enter_game g p =
    with_player p.id (λ p. record p { in_game = true }) g
    ▷ with_question (λ q. record q { answerers = q.answerers ++ p.id ∷ [] })

unfoldable pub for_all_begin : Game → Turn
unfolding wrong_price active_players
for_all_begin = on_question λ q g.
    let opened =
      with_question
        (λ q. record q {
          hidden = true;
          cur_price_wrong = wrong_price g.st.rules.for_all_penalty q.price g;
        })
        g in
    goto Tail.play_content (foldl enter_game opened (active_players g.st))

unfoldable pub stake_all_participants : Game → List Player
unfolding active_players
stake_all_participants g = keep takes_part (active_players g.st)
  where
    takes_part : Player → Bool
    takes_part p =
        if g.st.round_type == Pack.RoundType.final
        then p.final_in_game
        else ltb_ℤ (pos 0) p.score || g.st.rules.allow_everyone_to_play_hidden_stakes

unfoldable pub hidden_stake_set : Player → ℤ → Game → Game
unfolding emit showman
hidden_stake_set p amount g =
    with_player p.id
      (λ p. record p {
        stake_made = true;
        stake = amount;
        stake_all_in = amount == p.score && ltb_ℤ (pos 0) p.score;
      })
      g
    ▷ emit EvType.person_stake (Audience.except g.st.showman_id)
        (Payload.person_stake p.id StakeMode.stake (pos 0) true)
    ▷ showman EvType.person_stake (Payload.person_stake p.id StakeMode.stake amount true)

abbrev ask_hidden_stake : ℤ → Player → Game → Game
ask_hidden_stake dur p g =
    let ask =
      Payload.ask_stake p.id (StakeMode.stake ∷ StakeMode.all_in ∷ []) (pos 1) p.score (pos 1)
        "hiddenStake" dur in
    to p.id EvType.ask_stake ask g
    ▷ (λ g. if g.st.rules.oral then showman EvType.ask_stake ask g else g)

-- The players with a score of at most 1 stake 1; the others are asked.
unfoldable pub ask_hidden_stakes : ℤ → ℕ → List Player → Game → ℕ × Game
unfolding hidden_stake_set to showman
ask_hidden_stakes dur missing [] g = (missing, g)
ask_hidden_stakes dur missing (p ∷ ps) g =
    ask_hidden_stakes dur (if leb_ℤ p.score (pos 1) then missing else suc missing) ps
      (if leb_ℤ p.score (pos 1) then hidden_stake_set p (pos 1) g else ask_hidden_stake dur p g)

unfoldable pub stake_all_begin : Game → Turn
unfolding stake_all_participants set_player_state set_sub ask_hidden_stakes start_timer
    active_players
stake_all_begin = on_question λ q g.
    let opened = with_question (λ q. record q { hidden = true; hidden_all = true }) g in
    begin (stake_all_participants g) opened
  where
    sit_out : List Player → Game → Player → Game
    sit_out parts g p =
        if any (λ r. r.id == p.id) parts then g else set_player_state p.id PlayerState.pass g

    asked : ℤ → ℕ × Game → Turn
    asked dur (zero, g) = goto Tail.hidden_stakes_done g
    asked dur (suc n, g) = finish (start_timer TimerKind.stake_making dur "" g)

    begin : List Player → Game → Turn
    begin [] g = goto Tail.show_answer g
    begin parts g =
        foldl (sit_out parts) (foldl enter_game g parts) (active_players g.st)
        ▷ set_sub QSub.stakes
        ▷ ask_hidden_stakes g.st.times.stake_making_ms 0 parts
        ▷ asked g.st.times.stake_making_ms

-- Whether each answerer who still plays satisfies the test.
abbrev all_answerers : (Player → Bool) → List String → Game → Bool
all_answerers test answerers g =
    all
      (λ id. elim (player g.st id) [
        | none ↦ true
        | some p ↦ not (active p && p.in_game && not (test p))
      ])
      answerers

abbrev answerers_of : Game → List String
answerers_of g = elim (g.st.question) [ none ↦ [] | some q ↦ q.answerers ]

unfoldable pub all_hidden_stakes_made : Game → Bool
unfolding player
all_hidden_stakes_made g = all_answerers (λ p. p.stake_made) (answerers_of g) g

unfoldable pub all_hidden_answered : Game → Bool
unfolding player
all_hidden_answered g = all_answerers (λ p. p.answered) (answerers_of g) g

-- A stake of 1 for each answerer who passes the test and has made none.
unfoldable pub stake_missing : (Player → Bool) → List String → Game → Game
unfolding hidden_stake_set player
stake_missing test [] g = g
stake_missing test (id ∷ rest) g = stake_missing test rest (elim (player g.st id) [
  | none ↦ g
  | some p ↦ if test p && not p.stake_made then hidden_stake_set p (pos 1) g else g
])

unfoldable pub hidden_stakes_timeout : Game → Turn
unfolding stake_missing
hidden_stakes_timeout g =
    goto Tail.hidden_stakes_done (stake_missing (λ p. p.in_game) (answerers_of g) g)

unfoldable pub hidden_stakes_done : Game → Turn
unfolding stake_missing
hidden_stakes_done = on_question λ q g.
    if q.sub == QSub.stakes
    then goto Tail.play_content (stake_missing (λ p. true) q.answerers g)
    else finish g

unfoldable pub hidden_set_stake : Command → M Tail
unfolding acting_player is_answerer hidden_stake_set all_hidden_stakes_made stop_kind
hidden_set_stake cmd = do
  p ← acting_player cmd ""
  g ← get
  guard (p.in_game && is_answerer p.id g) Error.not_allowed
  guard (not p.stake_made) Error.bad_state
  amount ← amount_of p cmd.stake_mode
  guard (leb_ℤ (pos 1) amount && leb_ℤ amount (max_stake p)) Error.bad_argument
  run (hidden_stake_set p amount)
  g' ← get
  complete (all_hidden_stakes_made g')
  where
    amount_of : Player → StakeMode → M ℤ
    amount_of p StakeMode.all_in = pure p.score
    amount_of p StakeMode.stake = pure cmd.amount
    amount_of p StakeMode.unset = pure cmd.amount
    amount_of p _ = fail Error.bad_argument

    max_stake : Player → ℤ
    max_stake p = if ltb_ℤ p.score (pos 1) then pos 1 else p.score

    complete : Bool → M Tail
    complete true = do run (stop_kind TimerKind.stake_making); pure Tail.hidden_stakes_done
    complete false = pure Tail.done
