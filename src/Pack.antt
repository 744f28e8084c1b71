-- ===== src/Pack.antt =====
-- internal/packs/model.go: the question pack, as far as the game engine reads it. The opaque parts
-- that are only kept for the .siq round trip (`Script`, `Extra`, `SIQID`) are left out.
use sigame_server.Prelude.{
  Bool, Eq, List, Option, String, arith, by_code, false, ltb_ℤ, pos, string_eq, true, ℕ, ℤ, ◌≡◌,
}

-- A float64 by its bit pattern. Its arithmetic belongs to the runtime (`Engine.Host`).
abbrev pub Float64 : Type 0
Float64 = ℕ

-- `unset` is the empty string, in this and the other enumerations.
pub data RoundType : Type 0 where
  unset standard final : RoundType

pub data QuestionType : Type 0 where
  unset simple stake stake_all secret secret_public_price secret_no_question no_risk for_all
        custom :
      QuestionType
  other : String → QuestionType

pub data SelectionMode : Type 0 where
  unset any except_current : SelectionMode

pub data AnswerType : Type 0 where
  unset text select number point client : AnswerType

pub data ContentType : Type 0 where
  text image audio video html : ContentType

pub data Placement : Type 0 where
  unset screen replic background : Placement

pub record Info : Type 0 where
  pub authors : List String
  pub sources : List String
  pub comments : String
  pub showman_comments : String

-- A price choice.
pub record NumberSet : Type 0 where
  pub min : ℤ
  pub max : ℤ
  pub step : ℤ

pub record ContentItem : Type 0 where
  pub type : ContentType
  pub text : String
  pub media_id : String
  pub url : String
  pub placement : Placement
  pub duration_ms : ℤ
  pub no_wait : Bool

pub record AnswerOption : Type 0 where
  pub label : String
  pub content : List ContentItem

pub record QuestionParams : Type 0 where
  pub question : List ContentItem
  pub answer : List ContentItem
  pub theme : String
  pub price : Option NumberSet
  pub selection_mode : SelectionMode
  pub answer_type : AnswerType
  pub answer_options : List AnswerOption
  pub answer_deviation : Float64
  pub answer_duration_ms : ℤ

pub record Question : Type 0 where
  pub id : String
  pub price : ℤ
  pub type : QuestionType
  pub params : QuestionParams
  pub right : List String
  pub wrong : List String
  pub info : Info

pub record Theme : Type 0 where
  pub id : String
  pub name : String
  pub info : Info
  pub questions : List Question

pub record Round : Type 0 where
  pub id : String
  pub name : String
  pub type : RoundType
  pub info : Info
  pub themes : List Theme

-- The engine reads only the rounds of a pack.
pub record Pack : Type 0 where
  pub id : String
  pub name : String
  pub rounds : List Round

abbrev pub round_type_code : RoundType → ℕ
round_type_code RoundType.unset = 0
round_type_code RoundType.standard = 1
round_type_code RoundType.final = 2

pub round_type_code_injective : (a b : RoundType) → round_type_code a ≡ round_type_code b → a ≡ b
round_type_code_injective a b h = ground arith

instance abbrev pub round_type_eq : Eq RoundType
round_type_eq = by_code round_type_code round_type_code_injective

abbrev pub answer_type_code : AnswerType → ℕ
answer_type_code AnswerType.unset = 0
answer_type_code AnswerType.text = 1
answer_type_code AnswerType.select = 2
answer_type_code AnswerType.number = 3
answer_type_code AnswerType.point = 4
answer_type_code AnswerType.client = 5

pub answer_type_code_injective :
    (a b : AnswerType) → answer_type_code a ≡ answer_type_code b → a ≡ b
answer_type_code_injective a b h = ground arith

instance abbrev pub answer_type_eq : Eq AnswerType
answer_type_eq = by_code answer_type_code answer_type_code_injective

abbrev pub selection_mode_code : SelectionMode → ℕ
selection_mode_code SelectionMode.unset = 0
selection_mode_code SelectionMode.any = 1
selection_mode_code SelectionMode.except_current = 2

pub selection_mode_code_injective :
    (a b : SelectionMode) → selection_mode_code a ≡ selection_mode_code b → a ≡ b
selection_mode_code_injective a b h = ground arith

instance abbrev pub selection_mode_eq : Eq SelectionMode
selection_mode_eq = by_code selection_mode_code selection_mode_code_injective

-- The types that the engine has a script for.
unfoldable pub is_known : QuestionType → Bool
is_known QuestionType.unset = false
is_known QuestionType.custom = false
is_known (QuestionType.other name) = false
is_known _ = true

unfoldable pub effective_placement : ContentItem → Placement
effective_placement c = pick c.placement c.type
  where
    pick : Placement → ContentType → Placement
    pick Placement.unset ContentType.audio = Placement.background
    pick Placement.unset _ = Placement.screen
    pick p _ = p

unfoldable pub is_empty : Question → Bool
is_empty q = ltb_ℤ q.price (pos 0)
