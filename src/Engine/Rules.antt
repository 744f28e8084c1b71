-- ===== src/Engine/Rules.antt =====
-- internal/engine/rules.go: rules and timings.
use sigame_server.Prelude.{Bool, Eq, Option, arith, by_code, false, pos, true, ℕ, ℤ, ◌≡◌}

-- `unset` is the empty string; `other` stands for any name that `New` refuses.
pub data GameMode : Type 0 where
  unset classic simple quiz turn_taking other : GameMode

pub data Penalty : Type 0 where
  unset subtract free : Penalty

pub record Rules : Type 0 where
  pub mode : GameMode
  pub false_start : Bool
  pub oral : Bool
  pub ignore_wrong : Bool
  pub button_penalty : Penalty
  pub for_yourself_penalty : Penalty
  pub for_all_penalty : Penalty
  pub for_yourself_factor : ℤ
  pub reading_speed : ℤ
  pub partial_text : Bool
  pub hint_showman : Bool
  pub managed : Bool
  pub play_all_questions_in_final : Bool
  pub allow_everyone_to_play_hidden_stakes : Bool
  pub use_appellations : Bool
  pub display_answer_options_labels : Bool
  pub display_answer_options_one_by_one : Bool
  pub prepend_theme_comments_to_question : Bool

abbrev pub default_rules : Rules
default_rules = record {
  mode = GameMode.classic;
  false_start = true;
  oral = false;
  ignore_wrong = false;
  button_penalty = Penalty.subtract;
  for_yourself_penalty = Penalty.free;
  for_all_penalty = Penalty.subtract;
  for_yourself_factor = pos 2;
  reading_speed = pos 20;
  partial_text = false;
  hint_showman = false;
  managed = false;
  play_all_questions_in_final = false;
  allow_everyone_to_play_hidden_stakes = true;
  use_appellations = true;
  display_answer_options_labels = true;
  display_answer_options_one_by_one = true;
  prepend_theme_comments_to_question = true;
}

pub record TimeSettings : Type 0 where
  pub question_selection_ms : ℤ
  pub theme_selection_ms : ℤ
  pub player_selection_ms : ℤ
  pub button_pressing_ms : ℤ
  pub answering_ms : ℤ
  pub solo_answering_ms : ℤ
  pub hidden_answering_ms : ℤ
  pub stake_making_ms : ℤ
  pub showman_decision_ms : ℤ
  pub round_ms : ℤ
  pub button_blocking_ms : ℤ
  pub reflection_ms : ℤ
  pub image_ms : ℤ
  pub partial_image_ms : ℤ
  pub appellation_ms : ℤ

abbrev pub default_time_settings : TimeSettings
default_time_settings = record {
  question_selection_ms = pos 30_000;
  theme_selection_ms = pos 30_000;
  player_selection_ms = pos 30_000;
  button_pressing_ms = pos 5_000;
  answering_ms = pos 25_000;
  solo_answering_ms = pos 25_000;
  hidden_answering_ms = pos 45_000;
  stake_making_ms = pos 30_000;
  showman_decision_ms = pos 30_000;
  round_ms = pos 3_600_000;
  button_blocking_ms = pos 3_000;
  reflection_ms = pos 2_000;
  image_ms = pos 5_000;
  partial_image_ms = pos 3_000;
  appellation_ms = pos 30_000;
}

-- The rules that may change in the middle of a game; `none` leaves one as it is.
pub record RulesPatch : Type 0 where
  pub oral : Option Bool
  pub managed : Option Bool
  pub display_answer_options_labels : Option Bool
  pub false_start : Option Bool
  pub reading_speed : Option ℤ
  pub partial_text : Option Bool
  pub use_appellations : Option Bool
  pub button_blocking_ms : Option ℤ
  pub partial_image_ms : Option ℤ

abbrev pub mode_code : GameMode → ℕ
mode_code GameMode.unset = 0
mode_code GameMode.classic = 1
mode_code GameMode.simple = 2
mode_code GameMode.quiz = 3
mode_code GameMode.turn_taking = 4
mode_code GameMode.other = 5

pub mode_code_injective : (a b : GameMode) → mode_code a ≡ mode_code b → a ≡ b
mode_code_injective a b h = ground arith

instance abbrev pub mode_eq : Eq GameMode
mode_eq = by_code mode_code mode_code_injective

abbrev pub penalty_code : Penalty → ℕ
penalty_code Penalty.unset = 0
penalty_code Penalty.subtract = 1
penalty_code Penalty.free = 2

pub penalty_code_injective : (a b : Penalty) → penalty_code a ≡ penalty_code b → a ≡ b
penalty_code_injective a b h = ground arith

instance abbrev pub penalty_eq : Eq Penalty
penalty_eq = by_code penalty_code penalty_code_injective
