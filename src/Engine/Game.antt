-- ===== src/Engine/Game.antt =====
-- internal/engine/engine.go: the game, its event log, and what the game core calls of its runtime.
-- A method that changes the game returns the new game.
use sigame_server.Prelude.{
  Bool, List, Option, String, [], add64, if◌then◌else◌, int_eq, keep, map, none, not, pos, some,
  string_eq, true, ℕ, ℤ, ◌&&◌, ◌++◌, ◌==◌, ◌∷◌, ◌▷◌,
}
use sigame_server.Pack.{Float64, Pack}
use sigame_server.Engine.Kinds.{PlayerState, QSub, Role, Stage, stage_eq}
use sigame_server.Engine.State.{CellState, Player, QuestionState, State, ThemeState, player}
use sigame_server.Engine.Event.{
  Audience, EvType, Event, Payload, PlayerInfo, ScoreEntry, TableCell, TableTheme,
}

-- Go's runtime and standard library, as far as the engine calls them: the random generator by its
-- state, float64 by its bit pattern, and the Unicode functions on texts.
pub record Host : Type 0 where
  pub seed_pcg : ℤ → ℕ
  pub int_n : ℕ → ℕ → ℕ × ℕ
  pub of_int : ℤ → Float64
  pub to_int : Float64 → ℤ
  pub round : Float64 → Float64
  pub ceil : Float64 → Float64
  pub mul : Float64 → Float64 → Float64
  pub div : Float64 → Float64 → Float64
  pub sub : Float64 → Float64 → Float64
  pub abs : Float64 → Float64
  pub max : Float64 → Float64 → Float64
  pub hypot : Float64 → Float64 → Float64
  pub lt : Float64 → Float64 → Bool
  pub le : Float64 → Float64 → Bool
  pub parse_float : String → Option Float64
  pub format_float : Float64 → String
  pub format_point : Float64 → Float64 → String
  pub trim_space : String → String
  pub to_lower : String → String
  pub equal_fold : String → String → Bool
  pub split : String → String → List String

pub record Game : Type 0 where
  pub host : Host
  pub pack : Pack
  pub st : State
  pub rng : ℕ
  pub now : ℤ
  pub ev : List Event
  pub timer_seq : ℤ

-- A change of one field of the state. The source writes `g.st.Field = v`.
abbrev pub with_state : (State → State) → Game → Game
with_state f g = record g { st = f g.st }

-- A change of the current question; without one the source would fault, and nothing is done here.
abbrev pub with_question : (QuestionState → QuestionState) → Game → Game
with_question f g = record g { st = record (g.st) { question = change g.st.question } }
  where
    change : Option QuestionState → Option QuestionState
    change none = none
    change (some q) = some (f q)

-- A write through a `*Player`: the players have distinct ids, so the id names the object.
abbrev pub with_player : String → (Player → Player) → Game → Game
with_player id f g = record g { st = record (g.st) { players = map change g.st.players } }
  where
    change : Player → Player
    change p = if p.id == id then f p else p

unfoldable pub emit : EvType → Audience → Payload → Game → Game
emit t aud p g = record g { ev = g.ev ++ record { type = t; audience = aud; payload = p } ∷ [] }

unfoldable pub emit_all : EvType → Payload → Game → Game
unfolding emit
emit_all t p = emit t Audience.everyone p

unfoldable pub to : String → EvType → Payload → Game → Game
unfolding emit
to id t p = emit t (Audience.person id) p

unfoldable pub showman : EvType → Payload → Game → Game
unfolding emit
showman t p = emit t (Audience.role Role.showman) p

unfoldable pub room : EvType → Payload → Game → Game
unfolding emit
room t p = emit t Audience.room p

-- The sub-state that a stage event carries: the question's, in the question stage.
abbrev sub_of : Option QuestionState → Bool → Option QSub
sub_of (some q) true = some q.sub
sub_of _ _ = none

unfoldable pub emit_stage : Game → Game
unfolding emit_all
emit_stage g =
    emit_all EvType.stage
      (Payload.stage g.st.stage (sub_of g.st.question (g.st.stage == Stage.question))
        g.st.round_index)
      g

unfoldable pub set_sub : QSub → Game → Game
unfolding emit_stage
set_sub sub g = emit_stage (with_question (λ q. record q { sub = sub }) g)

unfoldable pub scores : Game → List ScoreEntry
scores g =
    map (λ p. record { person_id = p.id; score = p.score }) (keep (λ p. not p.kicked) g.st.players)

unfoldable pub emit_sums : Game → Game
unfolding emit_all scores
emit_sums g = emit_all EvType.sums (Payload.sums (scores g)) g

unfoldable pub player_infos : Game → List PlayerInfo
player_infos g = map info g.st.players
  where
    info : Player → PlayerInfo
    info p = record {
      id = p.id;
      name = p.name;
      score = p.score;
      connected = p.connected;
      ready = p.ready;
      kicked = p.kicked;
      state = p.state;
      can_press = p.can_press;
      in_game = p.in_game;
    }

unfoldable pub emit_players : Game → Game
unfolding emit_all player_infos
emit_players g = emit_all EvType.players (Payload.players (player_infos g)) g

unfoldable pub table_payload : Game → Payload
table_payload g = Payload.table (map theme g.st.table)
  where
    cell : CellState → TableCell
    cell c = record { price = c.price; played = c.played; removed = c.removed }

    theme : ThemeState → TableTheme
    theme t = record { name = t.name; removed = t.removed; questions = map cell t.questions }

unfoldable pub emit_table : Game → Game
unfolding emit_all table_payload
emit_table g = emit_all EvType.table (table_payload g) g

unfoldable pub set_player_state : String → PlayerState → Game → Game
unfolding emit_all
set_player_state id s g =
    g
    ▷ with_player id (λ p. record p { state = s })
    ▷ emit_all EvType.player_state (Payload.player_state id s)

-- The score of the player with this id, 0 where there is none.
abbrev pub score_of : Option Player → ℤ
score_of none = pos 0
score_of (some p) = p.score

unfoldable pub add_score : String → ℤ → String → Game → Game
unfolding emit_all player
add_score id delta reason g =
    if delta == pos 0 && not (reason == "correction")
    then g
    else (let g' = with_player id (λ p. record p { score = add64 p.score delta }) g in
        emit_all EvType.person_score
          (Payload.person_score id delta (score_of (player g'.st id)) reason) g')

unfoldable pub set_chooser : String → String → Game → Game
unfolding emit_all
set_chooser id reason g =
    g
    ▷ with_state (λ s. record s { chooser_id = id })
    ▷ emit_all EvType.set_chooser (Payload.set_chooser id reason)
