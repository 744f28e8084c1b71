-- ===== src/Engine/Tests.antt =====
-- The statements about internal/engine applied to the sample game.
use sigame_server.Prelude.{
  IsInt64, List, String, [], add64, any, arith, false, if◌then◌else◌, int_eq, map, negsuc, pos,
  refl, some, string_eq, true, ℕ, ◌%◌, ◌++◌, ◌+◌, ◌-◌, ◌<◌, ◌==◌, ◌∷◌, ◌≡◌,
}
use sigame_server.Pack.{ContentItem}
use sigame_server.Engine.Rules.{default_rules, default_time_settings}
use sigame_server.Engine.Kinds.{TimerKind}
use sigame_server.Engine.State.{Outcome, Player, active_players, player}
use sigame_server.Engine.Command.{CmdType}
use sigame_server.Engine.Game.{Game, add_score}
use sigame_server.Engine.Samples.{
  ann, appeal, bob, command, current, cyd, host, inits, lobby, pack, playing, text_item, timer,
  voting,
}
use sigame_server.Engine.Dispatch.{receive}
use sigame_server.Engine.Dispatch.Outcome.{Refused, receive-Refused}
use sigame_server.Engine.Dispatch.Permission.{Denied, receive-Denied, receive-Held}
use sigame_server.Engine.Score.{apply_outcome, one, outcome}
use sigame_server.Engine.Score.Ledger.{add_score-score, score}
use sigame_server.Engine.Score.Verdict.{
  apply_outcome-history, apply_outcome-score, history, payment, verdict_outcome,
}
use sigame_server.Engine.Content.{build_groups}
use sigame_server.Engine.Content.Groups.{build_groups-chain, chain, flat}
use sigame_server.Engine.Appeal.{on_vote_appeal}
use sigame_server.Engine.Appeal.Votes.{VoteTaken, on_vote_appeal-VoteTaken}
use sigame_server.Engine.Final.{final_build_order, final_offset}
use sigame_server.Engine.Final.Order.{
  Ascending, final_build_order-Ascending, final_offset-last, flat_ids, participants,
}
use sigame_server.Engine.Flow.Ending.{winner_of}
use sigame_server.Engine.Flow.Winner.{winner_of-top}
use mathlib.Core.List.{Permᴰ}
use sigame_server.Engine.Timers.{
  find_timer, pause_running, remaining, resume_timer, start_timer, stop_kind,
}
use sigame_server.Engine.Timers.Kinds.{OnePerKind, has_kind, start_timer-OnePerKind}
use sigame_server.Engine.Timers.Remaining.{at_time, held, left, resume_timer-remaining}
use sigame_server.Engine.Stake.{round_up}
use sigame_server.Engine.Stake.Rounding.{NextMultiple, round_up-NextMultiple}
use sigame_server.Engine.Control.{undo_scores}
use sigame_server.Engine.Control.Undo.{undo_scores-without, without_all}
use sigame_server.Engine.Table.{
  has_playable_cells, ids, lowest_score_players, next_sequential_cell, open_cells, random_cell,
  round_min_max, stake_step,
}
use sigame_server.Engine.Table.Prices.{StepOf, stake_step-StepOf}
use sigame_server.Engine.Table.Cells.{head?, is_some, next_sequential_cell-first}
use sigame_server.Engine.Table.Draw.{OpenDraw, random_cell-open}
use sigame_server.Engine.Table.Scores.{AllAbove, at_score, least_score, lowest_score_players-least}
use sigame_server.Engine.Create.{new_game}
use sigame_server.Engine.Create.Seating.{Opened, new_game-Opened}
use native.Mathlib.Nat.{mod-lt}

receive-Refused_example : Refused lobby (receive (command CmdType.start "a") lobby)
receive-Refused_example = receive-Refused (command CmdType.start "a") lobby refl

-- The last vote on Ann's appeal is Bob's, and decides it.
abbrev last_vote : Game
last_vote = record voting {
  st = record (voting.st) {
    appeal = some (record appeal {
      votes = ("a", true) ∷ ("c", true) ∷ ("s", false) ∷ [];
      pending = "b" ∷ [];
    });
  };
}

on_vote_appeal-VoteTaken_example :
    VoteTaken
      (command CmdType.vote_appeal "b")
      last_vote
      (on_vote_appeal (command CmdType.vote_appeal "b") last_vote)
on_vote_appeal-VoteTaken_example =
    on_vote_appeal-VoteTaken (command CmdType.vote_appeal "b") last_vote

player-ann_playing : player playing.st "a" ≡ some ann
unfolding player
player-ann_playing = refl

player-ann : player lobby.st "a" ≡ some ann
unfolding player
player-ann = refl

range_300 : IsInt64 (pos 300)
range_300 = (omega arith, omega arith)

apply_outcome-score_example :
    score (apply_outcome current "a" "Gauss" true one "exact" (pos 100) (pos 100) playing) "a"
    ≡ add64 (pos 300) (payment playing true one (pos 100) (pos 100))
apply_outcome-score_example =
    apply_outcome-score current "a" "Gauss" true one "exact" (pos 100) (pos 100) playing ann
      player-ann_playing range_300

apply_outcome-history_example :
    history (apply_outcome current "b" "Euler" false one "exact" (pos 100) (pos 100) playing)
    ≡ current.history ++ verdict_outcome playing "b" "Euler" false one (pos 100) (pos 100) ∷ []
apply_outcome-history_example =
    apply_outcome-history current current "b" "Euler" false one "exact" (pos 100) (pos 100) playing
      refl

abbrev three_items : List ContentItem
three_items = text_item "one" true ∷ text_item "two" false ∷ text_item "three" false ∷ []

build_groups-chain_example :
    (map (λ grp. grp.items) (build_groups lobby three_items) ≡ chain three_items)
    × (flat (chain three_items) ≡ three_items)
build_groups-chain_example = build_groups-chain lobby three_items

final_offset-last_example : (5 - 1 + final_offset 3 5) % 3 ≡ 3 - 1
final_offset-last_example = final_offset-last 3 5 (omega arith) (omega arith)

final_build_order-Ascending_example :
    (ps : List Player) × ((flat_ids (final_build_order lobby).st.final_groups ≡ ids ps)
      × (Ascending ps × Permᴰ ps (participants lobby)))
final_build_order-Ascending_example = final_build_order-Ascending lobby

winner_of-top_example :
    winner_of (bob ∷ ann ∷ cyd ∷ [])
    ≡ (if any (λ q. q.score == ann.score) (cyd ∷ []) then "" else ann.id)
winner_of-top_example =
    winner_of-top (bob ∷ ann ∷ cyd ∷ []) (bob ∷ []) (cyd ∷ []) ann refl (omega arith, tt)
      (omega arith, tt)

start_timer-OnePerKind_example :
    (OnePerKind (stop_kind TimerKind.round lobby).st.timers
      × (has_kind TimerKind.round (stop_kind TimerKind.round lobby).st.timers ≡ false))
    × OnePerKind (start_timer TimerKind.round (pos 60) "" lobby).st.timers
start_timer-OnePerKind_example =
    start_timer-OnePerKind TimerKind.round (pos 60) "" lobby (refl, (refl, tt))

min_price : (round_min_max lobby).0 ≡ pos 300
unfolding round_min_max
min_price = refl

stake_step-StepOf_example : StepOf 300 (stake_step lobby)
stake_step-StepOf_example = stake_step-StepOf lobby 300 min_price (omega arith) (omega arith)

new_game-Opened_example :
    Opened "s" inits
      (new_game host (some pack) default_rules default_time_settings inits "s" (pos 1))
new_game-Opened_example =
    new_game-Opened host (some pack) default_rules default_time_settings inits "s" (pos 1)

int_n_lt : (s m : ℕ) → 0 < m → (host.int_n s m).0 < m
int_n_lt s m h = mod-lt s h

playable : has_playable_cells lobby ≡ true
unfolding has_playable_cells
playable = refl

random_cell-open_example : OpenDraw lobby.st.table ((random_cell lobby).0)
random_cell-open_example = random_cell-open lobby int_n_lt playable

next_sequential_cell-first_example :
    (has_playable_cells lobby ≡ is_some (next_sequential_cell lobby))
    × (next_sequential_cell lobby ≡ head? (open_cells 0 lobby.st.table))
next_sequential_cell-first_example = next_sequential_cell-first lobby

active_three : active_players lobby.st ≡ ann ∷ bob ∷ cyd ∷ []
unfolding active_players
active_three = refl

lowest_score_players-least_example :
    (lowest_score_players lobby
      ≡ at_score (least_score ann.score (bob ∷ cyd ∷ [])) (active_players lobby.st))
    × AllAbove (least_score ann.score (bob ∷ cyd ∷ [])) (active_players lobby.st)
lowest_score_players-least_example =
    lowest_score_players-least lobby ann (bob ∷ cyd ∷ []) active_three

add_score-score_example :
    (score (add_score "a" (pos 50) "answer" lobby) "a" ≡ add64 (pos 300) (pos 50))
    × ((j : String)
        → (j == "a") ≡ false
        → player ((add_score "a" (pos 50) "answer" lobby).st) j ≡ player lobby.st j)
add_score-score_example = add_score-score "a" (pos 50) "answer" lobby ann player-ann range_300

timer_found : find_timer timer.id lobby ≡ some timer
unfolding find_timer
timer_found = refl

resume_timer-remaining_example :
    (find_timer timer.id (pause_running timer lobby) ≡ some (held timer lobby))
    × (left timer.id
          (resume_timer (held timer lobby) (at_time (pos 900) (pause_running timer lobby)))
        ≡ some (remaining timer lobby))
resume_timer-remaining_example = resume_timer-remaining timer lobby (pos 900) timer_found refl

round_up-NextMultiple_example : NextMultiple 130 100 (round_up (pos 130) (pos 100))
round_up-NextMultiple_example = round_up-NextMultiple 130 100 (omega arith) (omega arith)

abbrev two_outcomes : List Outcome
two_outcomes =
    outcome "b" "Euler" false one (negsuc 99) false
    ∷ outcome "a" "Gauss" true one (pos 100) false
    ∷ []

undo_scores-without_example :
    score (undo_scores two_outcomes lobby) "a" ≡ without_all "a" two_outcomes (pos 300)
undo_scores-without_example = undo_scores-without "a" two_outcomes lobby ann player-ann range_300

receive-Denied_example :
    Denied (record lobby { ev = []; now = pos 5 }) (receive (command CmdType.next "a") lobby)
receive-Denied_example = receive-Denied (command CmdType.next "a") lobby refl refl

abbrev paused_game : Game
paused_game = record playing { st = record (playing.st) { paused = true } }

receive-Held_example :
    Denied
      (record paused_game { ev = []; now = pos 5 })
      (receive (command CmdType.answer "a") paused_game)
receive-Held_example = receive-Held (command CmdType.answer "a") paused_game refl refl
