-- ===== src/Engine/Kinds.antt =====
-- internal/engine/state.go and command.go: the enumerations of the engine, with their equality.
-- The source spells them as strings; the values that it never stores have no constructor.
use sigame_server.Prelude.{
  Bool, Eq, arith, beq_ℤ, beq_ℤ_iff, by_code, int_eq, true, ℕ, ℤ, ◌&&◌, ◌==◌, ◌↔◌, ◌≡◌,
}

pub data Stage : Type 0 where
  lobby round_intro selecting question round_end final_themes game_end : Stage

pub data QSub : Type 0 where
  announcing secret_transfer price_select stakes content button_wait answering validating
        hidden_answering reveal end :
      QSub

pub data PlayerState : Type 0 where
  idle answering lost right wrong has_answered pass : PlayerState

pub data StakeMode : Type 0 where
  unset nominal stake all_in pass : StakeMode

pub data TimerKind : Type 0 where
  question_selection theme_selection player_selection button_pressing answering solo_answering
        hidden_answering stake_making showman_decision round reflection content media_fallback
        appellation :
      TimerKind

-- The text "kind-seq", kept as the pair that it is printed from.
pub record TimerId : Type 0 where
  pub kind : TimerKind
  pub seq : ℤ

pub data PendingKind : Type 0 where
  chooser staker deleter secret_transfer : PendingKind

pub data AppealKind : Type 0 where
  for against : AppealKind

pub data Phase : Type 0 where
  question answer : Phase

pub data Role : Type 0 where
  showman player viewer system : Role

-- The sentinel errors; `Apply` wraps them with a message, which is left out.
pub data Error : Type 0 where
  not_allowed bad_state bad_argument : Error

abbrev pub stage_code : Stage → ℕ
stage_code Stage.lobby = 0
stage_code Stage.round_intro = 1
stage_code Stage.selecting = 2
stage_code Stage.question = 3
stage_code Stage.round_end = 4
stage_code Stage.final_themes = 5
stage_code Stage.game_end = 6

pub stage_code_injective : (a b : Stage) → stage_code a ≡ stage_code b → a ≡ b
stage_code_injective a b h = ground arith

instance abbrev pub stage_eq : Eq Stage
stage_eq = by_code stage_code stage_code_injective

abbrev pub sub_code : QSub → ℕ
sub_code QSub.announcing = 0
sub_code QSub.secret_transfer = 1
sub_code QSub.price_select = 2
sub_code QSub.stakes = 3
sub_code QSub.content = 4
sub_code QSub.button_wait = 5
sub_code QSub.answering = 6
sub_code QSub.validating = 7
sub_code QSub.hidden_answering = 8
sub_code QSub.reveal = 9
sub_code QSub.end = 10

pub sub_code_injective : (a b : QSub) → sub_code a ≡ sub_code b → a ≡ b
sub_code_injective a b h = ground arith

instance abbrev pub sub_eq : Eq QSub
sub_eq = by_code sub_code sub_code_injective

abbrev pub stake_mode_code : StakeMode → ℕ
stake_mode_code StakeMode.unset = 0
stake_mode_code StakeMode.nominal = 1
stake_mode_code StakeMode.stake = 2
stake_mode_code StakeMode.all_in = 3
stake_mode_code StakeMode.pass = 4

pub stake_mode_code_injective : (a b : StakeMode) → stake_mode_code a ≡ stake_mode_code b → a ≡ b
stake_mode_code_injective a b h = ground arith

instance abbrev pub stake_mode_eq : Eq StakeMode
stake_mode_eq = by_code stake_mode_code stake_mode_code_injective

abbrev pub timer_kind_code : TimerKind → ℕ
timer_kind_code TimerKind.question_selection = 0
timer_kind_code TimerKind.theme_selection = 1
timer_kind_code TimerKind.player_selection = 2
timer_kind_code TimerKind.button_pressing = 3
timer_kind_code TimerKind.answering = 4
timer_kind_code TimerKind.solo_answering = 5
timer_kind_code TimerKind.hidden_answering = 6
timer_kind_code TimerKind.stake_making = 7
timer_kind_code TimerKind.showman_decision = 8
timer_kind_code TimerKind.round = 9
timer_kind_code TimerKind.reflection = 10
timer_kind_code TimerKind.content = 11
timer_kind_code TimerKind.media_fallback = 12
timer_kind_code TimerKind.appellation = 13

pub timer_kind_code_injective : (a b : TimerKind) → timer_kind_code a ≡ timer_kind_code b → a ≡ b
timer_kind_code_injective a b h = ground arith

instance abbrev pub timer_kind_eq : Eq TimerKind
timer_kind_eq = by_code timer_kind_code timer_kind_code_injective

abbrev pub pending_kind_code : PendingKind → ℕ
pending_kind_code PendingKind.chooser = 0
pending_kind_code PendingKind.staker = 1
pending_kind_code PendingKind.deleter = 2
pending_kind_code PendingKind.secret_transfer = 3

pub pending_kind_code_injective :
    (a b : PendingKind) → pending_kind_code a ≡ pending_kind_code b → a ≡ b
pending_kind_code_injective a b h = ground arith

instance abbrev pub pending_kind_eq : Eq PendingKind
pending_kind_eq = by_code pending_kind_code pending_kind_code_injective

abbrev pub appeal_kind_code : AppealKind → ℕ
appeal_kind_code AppealKind.for = 0
appeal_kind_code AppealKind.against = 1

pub appeal_kind_code_injective :
    (a b : AppealKind) → appeal_kind_code a ≡ appeal_kind_code b → a ≡ b
appeal_kind_code_injective a b h = ground arith

instance abbrev pub appeal_kind_eq : Eq AppealKind
appeal_kind_eq = by_code appeal_kind_code appeal_kind_code_injective

abbrev pub role_code : Role → ℕ
role_code Role.showman = 0
role_code Role.player = 1
role_code Role.viewer = 2
role_code Role.system = 3

pub role_code_injective : (a b : Role) → role_code a ≡ role_code b → a ≡ b
role_code_injective a b h = ground arith

instance abbrev pub role_eq : Eq Role
role_eq = by_code role_code role_code_injective

abbrev pub timer_id_beq : TimerId → TimerId → Bool
timer_id_beq a b = a.kind == b.kind && beq_ℤ a.seq b.seq

pub timer_id_beq_iff : (a b : TimerId) → (timer_id_beq a b ≡ true) ↔ (a ≡ b)
timer_id_beq_iff a b = (
  λ h. ground (arith, timer_kind_code_injective a.kind b.kind, (beq_ℤ_iff a.seq b.seq).0),
  λ h. ground arith,
)

instance abbrev pub timer_id_eq : Eq TimerId
timer_id_eq = record { same = timer_id_beq; same_iff = timer_id_beq_iff }
