-- ===== src/Engine/Flow.antt =====
-- internal/engine/engine.go, "lobby / game flow": rounds, the choice of cells and the end of a game.
pub mod Ending
pub mod Winner
use sigame_server.Prelude.{
  Bool, List, Option, String, [], elem, false, if◌then◌else◌, int_eq, leb_ℤ, length, ltb, ltb_ℤ,
  map, nat_eq, none, not, pos, some, string_eq, true, ℕ, ℤ, ◌++◌, ◌==◌, ◌||◌, ◌∷◌, ◌▷◌,
}
use sigame_server.Pack.{AnswerOption, ContentItem, Pack, round_type_eq}
use sigame_server.Pack
use sigame_server.Engine.Kinds.{Error, PendingKind, PlayerState, Stage, TimerKind}
use sigame_server.Engine.State.{
  AnswerView, CellState, Player, State, ThemeState, active, active_players, player,
}
use sigame_server.Engine.Command.{Command}
use sigame_server.Engine.Event.{EvType, Payload}
use sigame_server.Engine.Game.{
  Game, emit_all, emit_players, emit_stage, emit_sums, emit_table, set_chooser, showman, to,
  with_state,
}
use sigame_server.Engine.Timers.{start_timer, stop_all_except}
use sigame_server.Engine.Monad.{M, get, guard, pure, require_showman, run, ◌>>=◌, ◌>>◌}
use sigame_server.Engine.Table.{
  at, has_playable_cells, ids, lowest_score_players, next_sequential_cell, sequential,
}
use sigame_server.Engine.Tail.{Tail, Turn, finish, goto}
use sigame_server.Engine.Secret.{ask_select_player}
use sigame_server.Engine.Appeal.Result.{ask_choose}

abbrev pub no_answer : AnswerView
no_answer = record {
  text = "";
  option_label = "";
  number = none;
  point = none;
  client_right = none;
}

-- `resetPlayerQuestion`
unfoldable pub reset_player_question : Player → Player
reset_player_question p = record p {
  stake_made = false;
  stake = pos 0;
  stake_all_in = false;
  stake_passed = false;
  answered = false;
  answer = no_answer;
  media_done = false;
  appeal_used = false;
}

unfoldable pub reset_player : Player → Player
unfolding reset_player_question
reset_player p =
    reset_player_question
      (record p { state = PlayerState.idle; can_press = false; in_game = false })

abbrev pub new_cell : Pack.Question → CellState
new_cell q = record { price = q.price; played = false; removed = Pack.is_empty q }

abbrev pub new_theme : Pack.Theme → ThemeState
new_theme t = record { name = t.name; removed = false; questions = map new_cell t.questions }

-- A text that is not empty and not yet in the list is appended.
abbrev add_new : String → List String → List String
add_new s seen = if s == "" || elem s seen then seen else seen ++ s ∷ []

abbrev add_item : ContentItem → List String × List String → List String × List String
add_item it (media, urls) = (add_new it.media_id media, add_new it.url urls)

-- The media and the addresses to load before a round.
unfoldable pub round_content : Pack.Round → List String × List String
round_content r = fold_themes r.themes ([], [])
  where
    fold_items : List ContentItem → List String × List String → List String × List String
    fold_items [] acc = acc
    fold_items (it ∷ its) acc = fold_items its (add_item it acc)

    fold_options : List AnswerOption → List String × List String → List String × List String
    fold_options [] acc = acc
    fold_options (o ∷ os) acc = fold_options os (fold_items o.content acc)

    fold_questions : List Pack.Question → List String × List String → List String × List String
    fold_questions [] acc = acc
    fold_questions (q ∷ qs) acc =
        fold_questions qs (fold_options q.params.answer_options (fold_items q.params.question acc))

    fold_themes : List Pack.Theme → List String × List String → List String × List String
    fold_themes [] acc = acc
    fold_themes (t ∷ ts) acc = fold_themes ts (fold_questions t.questions acc)

-- What `startRound` clears.
abbrev clear_round : State → State
clear_round s = record s {
  question = none;
  pending = none;
  appeal = none;
  round_timed_out = false;
  wait_next = false;
  final_groups = [];
  final_offset = 0;
  delete_step = 0;
  deleter_id = "";
  deleter_used = [];
}

abbrev type_or_standard : Pack.RoundType → Pack.RoundType
type_or_standard Pack.RoundType.unset = Pack.RoundType.standard
type_or_standard t = t

-- Lays out the table of a round and seats the players anew.
abbrev open_round : ℤ → Pack.Round → State → State
open_round idx r s = record s {
  round_index = idx;
  round_name = r.name;
  round_type = type_or_standard r.type;
  table = map new_theme r.themes;
  players = map reset_player s.players;
  stage = Stage.round_intro;
}

abbrev announce_round : ℤ → Pack.Round → Game → Game
announce_round idx r g =
    let (media, urls) = round_content r in
    emit_stage g
    ▷ emit_all EvType.round_start
        (Payload.round_start idx r.name g.st.round_type (map (λ t. t.name) r.themes))
    ▷ emit_all EvType.round_content (Payload.round_content media urls)
    ▷ emit_table
    ▷ emit_sums

unfoldable pub start_round : ℤ → Game → Turn
unfolding stop_all_except emit_stage emit_table emit_sums start_timer round_content reset_player
start_round given g =
    if leb_ℤ (pos (length g.pack.rounds)) given
    then goto Tail.end_game cleared
    else elim (at g.pack.rounds idx) [ none ↦ finish cleared | some r ↦ begin r ]
  where
    cleared : Game
    cleared = with_state clear_round (stop_all_except [] g)

    idx : ℤ
    idx = if ltb_ℤ given (pos 0) then pos 0 else given

    begin : Pack.Round → Turn
    begin r =
        let announced = announce_round idx r (with_state (open_round idx r) cleared) in
        let timed =
          if ltb_ℤ (pos 0) g.st.times.round_ms
          then start_timer TimerKind.round g.st.times.round_ms "" announced
          else announced in
        if g.st.rules.managed
        then finish (with_state (λ s. record s { wait_next = true }) timed)
        else goto Tail.enter_round timed

-- Leaves the introduction of the round for its first step.
unfoldable pub enter_round : Game → Turn
enter_round g =
    let entered = with_state (λ s. record s { wait_next = false }) g in
    if g.st.round_type == Pack.RoundType.final
    then goto Tail.start_final_round entered
    else goto (Tail.begin_selection true) entered

-- Chooses the chooser, and asks for a cell.
abbrev select_chooser : List Player → Game → Turn
select_chooser [] g = goto (Tail.end_round "noPlayers") g
select_chooser (p ∷ []) g = finish (ask_choose (set_chooser p.id "roundStart" g))
select_chooser low g = finish (ask_select_player PendingKind.chooser g.st.showman_id (ids low) g)

abbrev has_chooser : Game → Bool
has_chooser g = elim (player g.st g.st.chooser_id) [ none ↦ false | some p ↦ active p ]

unfoldable pub begin_selection : Bool → Game → Turn
unfolding has_playable_cells emit_stage sequential next_sequential_cell player lowest_score_players
    ask_select_player set_chooser to showman start_timer
begin_selection round_start g =
    if g.st.round_timed_out
    then goto (Tail.end_round "timeout") g
    else if not (has_playable_cells g)
    then goto (Tail.end_round "empty") g
    else select
        (with_state (λ s. record s { stage = Stage.selecting; pending = none }) g ▷ emit_stage)
  where
    next_cell : Option (ℕ × ℕ) → Game → Turn
    next_cell none g = goto (Tail.end_round "empty") g
    next_cell (some (t, q)) g = goto (Tail.start_question t q) g

    select : Game → Turn
    select g =
        if sequential g
        then next_cell (next_sequential_cell g) g
        else if round_start || not (has_chooser g)
        then select_chooser (lowest_score_players g) g
        else finish (ask_choose g)

-- Starts the game from the lobby.
abbrev pub is_lobby : Stage → Bool
is_lobby Stage.lobby = true
is_lobby _ = false

abbrev pub start_now : Game → M Tail
start_now g = do
  run (emit_all EvType.options (Payload.options g.st.rules g.st.times))
  run emit_players
  pure (Tail.start_round (pos 0))

unfoldable pub on_start : Command → M Tail
unfolding require_showman active_players emit_players
on_start cmd = do
  require_showman cmd.actor
  g ← get
  guard (is_lobby g.st.stage) Error.bad_state
  guard (ltb 0 (length (active_players g.st))) Error.bad_state
  start_now g
