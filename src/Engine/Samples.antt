-- ===== src/Engine/Samples.antt =====
-- A small game on which the statements about internal/engine are tried: three players, a host whose
-- numbers stand for themselves, and one round of three questions.
use sigame_server.Prelude.{
  Bool, List, String, [], false, if◌then◌else◌, leb, ltb, none, pos, pos_part, some, string_eq,
  true, ℤ, ◌%◌, ◌+◌, ◌-◌, ◌==◌, ◌∷◌,
}
use sigame_server.Pack
use sigame_server.Pack.{
  AnswerType, ContentItem, ContentType, Info, Pack, Placement, QuestionType, RoundType,
  SelectionMode,
}
use sigame_server.Engine.Rules.{default_rules, default_time_settings}
use sigame_server.Engine.Kinds.{AppealKind, Role, StakeMode, TimerKind}
use sigame_server.Engine.State.{
  Appeal, CellState, Player, PlayerInit, QuestionState, ThemeState, Timer,
}
use sigame_server.Engine.Command.{CmdType, Command}
use sigame_server.Engine.Game.{Game, Host}
use sigame_server.Engine.Seats.{new_player}
use sigame_server.Engine.Question.{new_question}
use sigame_server.Engine.Create.{lobby_state}

-- Numbers stand for themselves, and a factor for nothing.
abbrev pub host : Host
host = record {
  seed_pcg = pos_part;
  int_n = λ s n. (s % n, s + 1);
  of_int = pos_part;
  to_int = pos;
  round = λ f. f;
  ceil = λ f. f;
  mul = λ f g. f;
  div = λ f g. f;
  sub = λ f g. f - g;
  abs = λ f. f;
  max = λ f g. if ltb f g then g else f;
  hypot = λ f g. f + g;
  lt = ltb;
  le = leb;
  parse_float = λ s. none;
  format_float = λ f. "";
  format_point = λ f g. "";
  trim_space = λ s. s;
  to_lower = λ s. s;
  equal_fold = λ s t. s == t;
  split = λ s t. s ∷ [];
}

abbrev pub no_info : Info
no_info = record { authors = []; sources = []; comments = ""; showman_comments = "" }

abbrev pub text_item : String → Bool → ContentItem
text_item text no_wait = record {
  type = ContentType.text;
  text = text;
  media_id = "";
  url = "";
  placement = Placement.screen;
  duration_ms = pos 0;
  no_wait = no_wait;
}

abbrev pub question : Pack.Question
question = record {
  id = "q";
  price = pos 100;
  type = QuestionType.unset;
  params = record {
    question = text_item "Who?" false ∷ [];
    answer = [];
    theme = "";
    price = none;
    selection_mode = SelectionMode.unset;
    answer_type = AnswerType.unset;
    answer_options = [];
    answer_deviation = 0;
    answer_duration_ms = pos 0;
  };
  right = "Gauss" ∷ [];
  wrong = [];
  info = no_info;
}

abbrev pub pack : Pack.Pack
pack = record {
  id = "p";
  name = "Pack";
  rounds =
      record {
        id = "r";
        name = "Round";
        type = RoundType.standard;
        info = no_info;
        themes =
            record { id = "t"; name = "Theme"; info = no_info; questions = question ∷ [] } ∷ [];
      }
      ∷ [];
}

abbrev pub with_score : Player → ℤ → Player
with_score p s = record p { score = s; final_in_game = true }

abbrev pub ann : Player
ann = with_score (new_player "a" "Ann") (pos 300)

abbrev pub bob : Player
bob = with_score (new_player "b" "Bob") (pos 100)

abbrev pub cyd : Player
cyd = with_score (new_player "c" "Cyd") (pos 100)

abbrev pub inits : List PlayerInit
inits = record { id = "a"; name = "Ann" } ∷ record { id = "b"; name = "Bob" } ∷ []

abbrev pub cell : ℤ → Bool → CellState
cell price played = record { price = price; played = played; removed = false }

abbrev pub table : List ThemeState
table =
    record {
      name = "Theme";
      removed = false;
      questions = cell (pos 300) true ∷ cell (pos 500) false ∷ cell (pos 700) false ∷ [];
    }
    ∷ []

abbrev pub timer : Timer
timer = record {
  id = record { kind = TimerKind.round; seq = pos 1 };
  kind = TimerKind.round;
  duration_ms = pos 1000;
  started_at_ms = pos 0;
  paused = false;
  frozen = false;
  remaining_ms = pos 0;
  person_id = "";
}

abbrev pub lobby : Game
lobby = record {
  host = host;
  pack = pack;
  st = record (lobby_state default_rules default_time_settings (ann ∷ bob ∷ cyd ∷ []) "s") {
    table = table;
    timers = timer ∷ [];
  };
  rng = 1;
  now = pos 0;
  ev = [];
  timer_seq = pos 1;
}

abbrev pub current : QuestionState
current = new_question 0 1 question lobby

abbrev pub playing : Game
playing = record lobby { st = record (lobby.st) { question = some current } }

-- An appeal of Ann's, on which Bob, Cyd and the showman have a say.
abbrev pub appeal : Appeal
appeal = record {
  request = record {
    kind = AppealKind.for;
    appellant_id = "a";
    answerer_id = "a";
    outcome_idx = 0;
  };
  voters = "a" ∷ "b" ∷ "c" ∷ "s" ∷ [];
  votes = ("a", true) ∷ ("s", false) ∷ [];
  total = 4;
  pending = "b" ∷ "c" ∷ [];
}

abbrev pub voting : Game
voting = record playing { st = record (playing.st) { appeal = some appeal } }

abbrev pub command : CmdType → String → Command
command type id = record {
  type = type;
  actor = record { person_id = id; role = Role.player; is_host = false };
  at_ms = pos 5;
  theme = pos 0;
  q = pos 0;
  winner_id = "";
  nobody = false;
  text = "";
  option_label = "";
  number = none;
  point = none;
  right = true;
  right_set = true;
  factor = 0;
  factor_zero = false;
  source = "";
  reason = "";
  person_id = "";
  name = "";
  stake_mode = StakeMode.pass;
  amount = pos 0;
  for = true;
  timer_id = none;
  on = false;
  dir = pos 1;
  round = pos 0;
  new_sum = pos 0;
  options = none;
}
