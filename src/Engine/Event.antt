-- ===== src/Engine/Event.antt =====
-- internal/engine/event.go: what the engine emits. A payload struct is a constructor of `Payload`,
-- with the struct's fields in their order.
use sigame_server.Prelude.{Bool, List, Option, String, false, true, ℕ, ℤ}
use sigame_server.Pack.{AnswerType, ContentType, Float64, Placement, QuestionType, RoundType}
use sigame_server.Engine.Rules.{Rules, TimeSettings}
use sigame_server.Engine.Kinds.{
  AppealKind, PendingKind, Phase, PlayerState, QSub, Role, Stage, StakeMode, TimerId, TimerKind,
}
use sigame_server.Engine.State.{AnswerView}

pub data EvType : Type 0 where
  stage players options round_start round_content table sums set_chooser ask_choose
        ask_select_player question_start question_caption showman_hint content content_state
        answer_options media_wait ask_answer answer_draft player_answer ask_validate validation
        ai_suggestion person_score player_state pass right_answer question_end ask_stake
        person_stake ask_delete_theme theme_deleted final_think timer_start timer_stop timer_pause
        timer_resume pause toggle round_end winner game_end appeal_start ask_appeal_vote appeal_vote
        appeal_result user_error button_arm_request button_disarm validation_timeout :
      EvType

-- The kind of an audience with the field that goes with it.
pub data Audience : Type 0 where
  everyone : Audience
  role : Role → Audience
  person : String → Audience
  except : String → Audience
  room : Audience

pub record PlayerInfo : Type 0 where
  pub id : String
  pub name : String
  pub score : ℤ
  pub connected : Bool
  pub ready : Bool
  pub kicked : Bool
  pub state : PlayerState
  pub can_press : Bool
  pub in_game : Bool

pub record TableCell : Type 0 where
  pub price : ℤ
  pub played : Bool
  pub removed : Bool

pub record TableTheme : Type 0 where
  pub name : String
  pub removed : Bool
  pub questions : List TableCell

pub record ScoreEntry : Type 0 where
  pub person_id : String
  pub score : ℤ

pub record ContentItemView : Type 0 where
  pub type : ContentType
  pub text : String
  pub media_id : String
  pub url : String
  pub placement : Placement
  pub duration_ms : ℤ

pub record AnswerOptionView : Type 0 where
  pub label : String
  pub content : List ContentItemView

pub record PlayerStats : Type 0 where
  pub person_id : String
  pub right_answers : ℤ
  pub wrong_answers : ℤ
  pub accepted_answers : List String
  pub rejected_answers : List String
  pub appeals : ℤ

pub record Statistics : Type 0 where
  pub questions_played : ℤ
  pub players : List PlayerStats

pub data Payload : Type 0 where
  stage : Stage → Option QSub → ℤ → Payload
  players : List PlayerInfo → Payload
  options : Rules → TimeSettings → Payload
  round_start : ℤ → String → RoundType → List String → Payload
  round_content : List String → List String → Payload
  table : List TableTheme → Payload
  sums : List ScoreEntry → Payload
  set_chooser : String → String → Payload
  ask_choose : String → ℤ → Payload
  ask_select_player : PendingKind → List String → String → ℤ → Payload
  question_start : String → ℕ → ℕ → String → ℤ → QuestionType → Bool → AnswerType → Payload
  question_caption : String → ℤ → Payload
  showman_hint : List String → List String → String → String → Payload
  content : Phase → ℕ → List ContentItemView → ℤ → Payload
  content_state : String → Payload
  answer_options : List AnswerOptionView → Bool → Bool → Payload
  media_wait : String → String → Payload
  ask_answer : String → AnswerType → ℤ → Bool → Bool → Payload
  answer_draft : String → String → Payload
  player_answer : String → AnswerView → Payload
  ask_validate : String → String → List String → List String → Bool → Bool → ℤ → Bool → Payload
  validation : String → String → Bool → Float64 → String → String → Payload
  validation_timeout : String → String → List String → List String → Payload
  ai_suggestion : String → Bool → Float64 → String → Payload
  person_score : String → ℤ → ℤ → String → Payload
  player_state : String → PlayerState → Payload
  pass : String → Payload
  right_answer : String → List ContentItemView → String → Payload
  question_end : ℕ → ℕ → Payload
  ask_stake : String → List StakeMode → ℤ → ℤ → ℤ → String → ℤ → Payload
  person_stake : String → StakeMode → ℤ → Bool → Payload
  ask_delete_theme : String → List ℕ → ℤ → Payload
  theme_deleted : ℕ → String → Payload
  final_think : ℤ → Payload
  timer_start : TimerId → TimerKind → ℤ → String → Payload
  timer_stop : TimerId → Payload
  timer_pause : TimerId → TimerKind → ℤ → Payload
  pause : Bool → Payload
  toggle : ℤ → ℤ → Bool → Payload
  round_end : ℤ → String → Payload
  winner : String → Payload
  game_end : List ScoreEntry → String → Statistics → Payload
  appeal_start : AppealKind → String → String → String → List String → ℤ → Payload
  ask_appeal_vote : AppealKind → String → String → List String → Payload
  appeal_vote : String → Bool → Payload
  appeal_result : AppealKind → String → Bool → ℕ → ℕ → Payload
  button_arm_request : String → List String → ℤ → Bool → Payload
  button_disarm_request : String → Payload

pub record Event : Type 0 where
  pub type : EvType
  pub audience : Audience
  pub payload : Payload

-- Addressed to the room actor, and never forwarded to clients.
unfoldable pub is_internal : Event → Bool
is_internal e = to_room e.audience
  where
    to_room : Audience → Bool
    to_room Audience.room = true
    to_room _ = false

-- A timer request that the room must act on.
unfoldable pub is_timer : Event → Bool
is_timer e = of_type e.type
  where
    of_type : EvType → Bool
    of_type EvType.timer_start = true
    of_type EvType.timer_stop = true
    of_type EvType.timer_pause = true
    of_type EvType.timer_resume = true
    of_type _ = false
