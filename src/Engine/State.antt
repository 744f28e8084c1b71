-- ===== src/Engine/State.antt =====
-- internal/engine/state.go: the state of a game.
use sigame_server.Prelude.{
  Bool, Dict, List, Option, String, find_first, keep, map, not, string_eq, ℕ, ℤ, ◌&&◌, ◌==◌,
}
use sigame_server.Pack.{AnswerOption, AnswerType, ContentItem, Float64, QuestionType, RoundType}
use sigame_server.Engine.Rules.{Rules, TimeSettings}
use sigame_server.Engine.Kinds.{
  AppealKind, PendingKind, Phase, PlayerState, QSub, Stage, StakeMode, TimerId, TimerKind,
}

pub record PlayerInit : Type 0 where
  pub id : String
  pub name : String

pub record Point : Type 0 where
  pub x : Float64
  pub y : Float64

-- event.go: a submitted answer.
pub record AnswerView : Type 0 where
  pub text : String
  pub option_label : String
  pub number : Option Float64
  pub point : Option Point
  pub client_right : Option Bool

pub record Player : Type 0 where
  pub id : String
  pub name : String
  pub score : ℤ
  pub connected : Bool
  pub kicked : Bool
  pub ready : Bool
  pub can_press : Bool
  pub state : PlayerState
  pub in_game : Bool
  pub final_in_game : Bool
  pub stake_made : Bool
  pub stake : ℤ
  pub stake_all_in : Bool
  pub stake_passed : Bool
  pub answered : Bool
  pub answer : AnswerView
  pub media_done : Bool
  pub appeal_used : Bool
  pub right : ℤ
  pub wrong : ℤ
  pub accepted_answers : List String
  pub rejected_answers : List String
  pub appeals : ℤ

abbrev pub active : Player → Bool
active p = p.connected && not p.kicked

pub record CellState : Type 0 where
  pub price : ℤ
  pub played : Bool
  pub removed : Bool

pub record ThemeState : Type 0 where
  pub name : String
  pub removed : Bool
  pub questions : List CellState

pub record Timer : Type 0 where
  pub id : TimerId
  pub kind : TimerKind
  pub duration_ms : ℤ
  pub started_at_ms : ℤ
  pub paused : Bool
  pub frozen : Bool
  pub remaining_ms : ℤ
  pub person_id : String

-- One scored answer within a question.
pub record Outcome : Type 0 where
  pub person_id : String
  pub answer : String
  pub right : Bool
  pub factor : Float64
  pub delta : ℤ
  pub pass : Bool
  pub reverted : Bool

pub record Pending : Type 0 where
  pub kind : PendingKind
  pub decider_id : String
  pub candidates : List String

pub record StakeState : Type 0 where
  pub step : ℤ
  pub nominal : ℤ
  pub participants : List String
  pub active : Dict Bool
  pub bids : Dict ℤ
  pub has_bid : Dict Bool
  pub all_in : Dict Bool
  pub order : List String
  pub current : String
  pub stake : ℤ
  pub leader : String
  pub any_all_in : Bool
  pub allowed_modes : List StakeMode
  pub min : ℤ
  pub max : ℤ

pub record ContentGroup : Type 0 where
  pub items : List ContentItem
  pub wait_ms : ℤ
  pub media_wait : Bool
  pub media_id : String
  pub media_url : String
  pub partial_img : Bool

pub record AppealRequest : Type 0 where
  pub kind : AppealKind
  pub appellant_id : String
  pub answerer_id : String
  pub outcome_idx : ℕ

pub record Appeal : Type 0 where
  pub request : AppealRequest
  pub open request use *
  pub voters : List String
  pub votes : Dict Bool
  pub total : ℕ
  pub pending : List String

pub record Validation : Type 0 where
  pub right : Bool
  pub factor : Float64

pub record QuestionState : Type 0 where
  pub theme_index : ℕ
  pub question_index : ℕ
  pub id : String
  pub type : QuestionType
  pub is_default : Bool
  pub known : Bool
  pub answer_type : AnswerType
  pub price : ℤ
  pub cur_price_right : ℤ
  pub cur_price_wrong : ℤ
  pub sub : QSub
  pub caption : String
  pub is_final : Bool
  pub button : Bool
  pub armed : Bool
  pub direct : Bool
  pub hidden : Bool
  pub hidden_all : Bool
  pub secret_public : Bool
  pub no_question : Bool
  pub options_shown : Bool
  pub answerer_id : String
  pub answerers : List String
  pub reveal_idx : ℕ
  pub groups : List ContentGroup
  pub cursor : ℕ
  pub phase : Phase
  pub content_done : Bool
  pub wait_next : Bool
  pub thinking_remain : ℤ
  pub stakes : Option StakeState
  pub options : List AnswerOption
  pub excluded_options : Dict Bool
  pub validation_cache : Dict Validation
  pub pending_answer_id : String
  pub pending_answer : String
  pub pre_verdicts : Dict Validation
  pub history : List Outcome
  pub appeal_queue : List AppealRequest
  pub against_used : Bool
  pub rights : List String
  pub wrongs : List String
  pub answer_items : List ContentItem
  pub comments : String
  pub price_choices : List ℤ
  pub stake_all_missing : ℤ
  pub awaiting_media_ids : Bool

pub record State : Type 0 where
  pub stage : Stage
  pub round_index : ℤ
  pub round_name : String
  pub round_type : RoundType
  pub table : List ThemeState
  pub chooser_id : String
  pub players : List Player
  pub showman_id : String
  pub rules : Rules
  pub times : TimeSettings
  pub question : Option QuestionState
  pub pending : Option Pending
  pub timers : List Timer
  pub paused : Bool
  pub appeal : Option Appeal
  pub round_timed_out : Bool
  pub wait_next : Bool
  pub final_groups : List (List String)
  pub final_offset : ℕ
  pub delete_step : ℕ
  pub deleter_id : String
  pub deleter_used : List (ℕ × String)
  pub winner : String
  pub questions_played : ℤ
  pub ended : Bool

-- `State.player`, `activePlayers` and `activeIDs`.
unfoldable pub player : State → String → Option Player
player s id = find_first (λ p. p.id == id) s.players

unfoldable pub active_players : State → List Player
active_players s = keep active s.players

unfoldable pub active_ids : State → List String
unfolding active_players
active_ids s = map (λ p. p.id) (active_players s)
