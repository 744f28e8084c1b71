-- ===== src/Engine/Flow/Ending.antt =====
-- internal/engine/engine.go: the end of a round and of the game.
use sigame_server.Prelude.{
  Bool, List, Option, String, [], add64, false, if◌then◌else◌, int_eq, keep, ltb_ℤ, map, none, not,
  pos, some, true, ℤ, ◌==◌, ◌∷◌, ◌▷◌,
}
use sigame_server.Engine.Kinds.{Stage}
use sigame_server.Engine.State.{Player}
use sigame_server.Engine.Event.{EvType, Payload, PlayerStats, Statistics}
use sigame_server.Engine.Game.{Game, emit_all, emit_stage, emit_sums, scores, with_state}
use sigame_server.Engine.Timers.{stop_all_except}
use sigame_server.Engine.Tail.{Tail, Turn, finish, goto}

-- Closes the round and moves on.
unfoldable pub end_round : String → Game → Turn
unfolding stop_all_except emit_stage emit_sums
end_round reason g =
    let closed =
      stop_all_except [] g
      ▷ with_state (λ s. record s { pending = none; stage = Stage.round_end })
      ▷ emit_stage
      ▷ emit_all EvType.round_end (Payload.round_end g.st.round_index reason)
      ▷ emit_sums in
    if g.st.rules.managed
    then finish (with_state (λ s. record s { wait_next = true }) closed)
    else goto (Tail.start_round (add64 g.st.round_index (pos 1))) closed

-- The loop over the players who were not kicked: the best score, its holder, and whether it is tied.
unfoldable pub winner_loop : Option (ℤ × String × Bool) → List Player → Option (ℤ × String × Bool)
winner_loop best [] = best
winner_loop none (p ∷ ps) = winner_loop (some (p.score, p.id, false)) ps
winner_loop (some (best, winner, tie)) (p ∷ ps) =
    winner_loop
      (if ltb_ℤ best p.score
        then some (p.score, p.id, false)
        else if p.score == best
        then some (best, winner, true)
        else some (best, winner, tie))
      ps

-- The holder of the best score, or nobody where it is tied.
unfoldable pub winner_of : List Player → String
unfolding winner_loop
winner_of ps = sole (winner_loop none (keep (λ p. not p.kicked) ps))
  where
    sole : Option (ℤ × String × Bool) → String
    sole none = ""
    sole (some (best, winner, tie)) = if tie then "" else winner

unfoldable pub statistics : Game → Statistics
statistics g = record { questions_played = g.st.questions_played; players = map stats g.st.players }
  where
    stats : Player → PlayerStats
    stats p = record {
      person_id = p.id;
      right_answers = p.right;
      wrong_answers = p.wrong;
      accepted_answers = p.accepted_answers;
      rejected_answers = p.rejected_answers;
      appeals = p.appeals;
    }

unfoldable pub end_game : Game → Turn
unfolding stop_all_except emit_stage winner_of scores statistics
end_game g =
    let winner = winner_of g.st.players in
    stop_all_except [] g
    ▷ with_state (λ s. record s { stage = Stage.game_end; ended = true })
    ▷ emit_stage
    ▷ with_state (λ s. record s { winner = winner })
    ▷ emit_all EvType.winner (Payload.winner winner)
    ▷ (λ g. emit_all EvType.game_end (Payload.game_end (scores g) winner (statistics g)) g)
    ▷ finish
