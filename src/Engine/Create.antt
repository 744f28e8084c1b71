-- ===== src/Engine/Create.antt =====
-- internal/engine/engine.go: `New`.
pub mod Seating
use sigame_server.Prelude.{
  Bool, List, Option, String, [], elem, false, if◌then◌else◌, leb, leb_ℤ, length, ltb, negsuc, none,
  not, pos, some, string_eq, true, ℤ, ◌&&◌, ◌==◌, ◌||◌, ◌∷◌,
}
use sigame_server.Pack
use sigame_server.Pack.{Pack, RoundType}
use sigame_server.Engine.Rules.{GameMode, Penalty, Rules, TimeSettings}
use sigame_server.Engine.Kinds.{Error, Stage}
use sigame_server.Engine.State.{Player, PlayerInit, State}
use sigame_server.Engine.Game.{Game, Host}
use sigame_server.Engine.Seats.{max_players, new_player}

pub data Created : Type 0 where
  ok : Game → Created
  err : Error → Created

abbrev pub mode_or_classic : GameMode → GameMode
mode_or_classic GameMode.unset = GameMode.classic
mode_or_classic m = m

abbrev pub known_mode : GameMode → Bool
known_mode GameMode.classic = true
known_mode GameMode.simple = true
known_mode GameMode.quiz = true
known_mode GameMode.turn_taking = true
known_mode _ = false

abbrev penalty_or : Penalty → Penalty → Penalty
penalty_or d Penalty.unset = d
penalty_or d p = p

-- The rules with their defaults filled in.
unfoldable pub complete_rules : Rules → Rules
complete_rules r = record r {
  mode = mode_or_classic r.mode;
  for_yourself_factor =
      if leb_ℤ r.for_yourself_factor (pos 0) then pos 2 else r.for_yourself_factor;
  button_penalty = penalty_or Penalty.subtract r.button_penalty;
  for_yourself_penalty = penalty_or Penalty.free r.for_yourself_penalty;
  for_all_penalty = penalty_or Penalty.subtract r.for_all_penalty;
}

-- The players in their seats; `none` where an id is empty, repeated or the showman's.
unfoldable pub seat_players : String → List String → List PlayerInit → Option (List Player)
seat_players showman_id seen [] = some []
seat_players showman_id seen (pi ∷ rest) =
    let seated = seat_players showman_id (pi.id ∷ seen) rest in
    if pi.id == "" || elem pi.id seen || pi.id == showman_id
    then none
    else elim seated [ none ↦ none | some ps ↦ some (new_player pi.id pi.name ∷ ps) ]

abbrev pub lobby_state : Rules → TimeSettings → List Player → String → State
lobby_state rules times players showman_id = record {
  stage = Stage.lobby;
  round_index = negsuc 0;
  round_name = "";
  round_type = RoundType.unset;
  table = [];
  chooser_id = "";
  players = players;
  showman_id = showman_id;
  rules = rules;
  times = times;
  question = none;
  pending = none;
  timers = [];
  paused = false;
  appeal = none;
  round_timed_out = false;
  wait_next = false;
  final_groups = [];
  final_offset = 0;
  delete_step = 0;
  deleter_id = "";
  deleter_used = [];
  winner = "";
  questions_played = pos 0;
  ended = false;
}

abbrev pub has_rounds : Pack.Pack → Bool
has_rounds pack = ltb 0 (length pack.rounds)

-- The game of players in their seats; without them the creation fails.
abbrev pub opened :
    Host → Pack.Pack → Rules → TimeSettings → String → ℤ → Option (List Player) → Created
opened host pack rules times showman_id seed none = Created.err Error.bad_argument
opened host pack rules times showman_id seed (some ps) = Created.ok (record {
  host = host;
  pack = pack;
  st = lobby_state rules times ps showman_id;
  rng = host.seed_pcg seed;
  now = pos 0;
  ev = [];
  timer_seq = pos 0;
})

-- A pack of `none` is the nil pointer.
unfoldable pub new_game :
    Host → Option Pack.Pack → Rules → TimeSettings → List PlayerInit → String → ℤ → Created
unfolding complete_rules seat_players
new_game host none rules times players showman_id seed = Created.err Error.bad_argument
new_game host (some pack) rules times players showman_id seed =
    if has_rounds pack
      && ltb 0 (length players)
      && leb (length players) max_players
      && not (showman_id == "")
      && known_mode (mode_or_classic rules.mode)
    then opened host pack (complete_rules rules) times showman_id seed
        (seat_players showman_id [] players)
    else Created.err Error.bad_argument
