-- ===== src/Engine/Command.antt =====
-- internal/engine/command.go: the commands that the room feeds into the engine.
use sigame_server.Prelude.{Bool, Option, String, ℤ}
use sigame_server.Pack.{Float64}
use sigame_server.Engine.Rules.{RulesPatch}
use sigame_server.Engine.Kinds.{Role, StakeMode, TimerId}
use sigame_server.Engine.State.{Point}

pub record Actor : Type 0 where
  pub person_id : String
  pub role : Role
  pub is_host : Bool

-- `other` stands for a type that `dispatch` does not know.
pub data CmdType : Type 0 where
  start player_ready choose_question button_result pass answer answer_draft validate select_player
        set_stake delete_theme appellate vote_appeal timeout media_completed media_loaded
        showman_pause move toggle change_score set_chooser player_left player_joined kick_player
        set_options next ai_suggestion other :
      CmdType

-- Only the fields that go with the type are read. A `timer_id` of `none` is a text that names no
-- timer; an empty `source` is the empty text.
pub record Command : Type 0 where
  pub type : CmdType
  pub actor : Actor
  pub at_ms : ℤ
  pub theme : ℤ
  pub q : ℤ
  pub winner_id : String
  pub nobody : Bool
  pub text : String
  pub option_label : String
  pub number : Option Float64
  pub point : Option Point
  pub right : Bool
  pub right_set : Bool
  pub factor : Float64
  pub factor_zero : Bool
  pub source : String
  pub reason : String
  pub person_id : String
  pub name : String
  pub stake_mode : StakeMode
  pub amount : ℤ
  pub for : Bool
  pub timer_id : Option TimerId
  pub on : Bool
  pub dir : ℤ
  pub round : ℤ
  pub new_sum : ℤ
  pub options : Option RulesPatch
