-- ===== src/Engine/Snapshot.antt =====
-- internal/engine/snapshot.go: the view of the game that a client is sent, by its role. A list of
-- an option (`nil` or present) is a list, and a map that may be missing an empty one.
pub mod Hiding
mod Tests
use sigame_server.Prelude.{
  Bool, Dict, List, Option, String, [], elem, false, flag, get_elem?, if◌then◌else◌, keep, lookup,
  map, none, not, pos, some, string_eq, sub64, suc, take, true, zero, ℕ, ℤ, ◌&&◌, ◌==◌, ◌||◌, ◌∷◌,
}
use sigame_server.Pack.{AnswerOption, AnswerType, Float64, QuestionType, RoundType}
use sigame_server.Engine.Rules.{Rules, TimeSettings}
use sigame_server.Engine.Kinds.{
  AppealKind, PendingKind, QSub, Role, Stage, StakeMode, TimerId, TimerKind, stage_eq, sub_eq,
}
use sigame_server.Engine.State.{
  AnswerView, Appeal, ContentGroup, Outcome, Pending, Player, QuestionState, StakeState, State,
  Timer, active, player,
}
use sigame_server.Engine.Event.{AnswerOptionView, ContentItemView, Payload, PlayerInfo, ScoreEntry}
use sigame_server.Engine.Game.{Game, player_infos, scores, table_payload}
use sigame_server.Engine.Table.{ids, sequential}
use sigame_server.Engine.Score.{eligible_ids}
use sigame_server.Engine.Answer.{answer_duration, is_answerer}
use sigame_server.Engine.Appeal.{count_votes}
use sigame_server.Engine.Final.{final_remaining_themes}
use sigame_server.Engine.Content.{view_items}

pub record TimerView : Type 0 where
  pub id : TimerId
  pub kind : TimerKind
  pub duration_ms : ℤ
  pub started_at_ms : ℤ
  pub paused : Bool
  pub remaining_ms : ℤ
  pub person_id : String

pub record PendingView : Type 0 where
  pub kind : PendingKind
  pub decider_id : String
  pub candidates : List String

pub record AppealView : Type 0 where
  pub kind : AppealKind
  pub appellant_id : String
  pub answerer_id : String
  pub answer : String
  pub in_favour : ℕ
  pub against : ℕ
  pub pending : List String

pub record OutcomeView : Type 0 where
  pub person_id : String
  pub answer : String
  pub right : Bool
  pub factor : Float64
  pub delta : ℤ
  pub reverted : Bool

pub record StakesView : Type 0 where
  pub nominal : ℤ
  pub step : ℤ
  pub stake : ℤ
  pub leader : String
  pub current : String
  pub bids : Dict ℤ
  pub passed : List String
  pub all_in : List String

pub record RightAnswer : Type 0 where
  pub text : String
  pub items : List ContentItemView
  pub comments : String

-- The content of one group, up to the cursor: its index, its items and its time.
pub record GroupView : Type 0 where
  pub index : ℕ
  pub items : List ContentItemView
  pub wait_ms : ℤ

pub record QuestionView : Type 0 where
  pub question_id : String
  pub theme_index : ℕ
  pub question_index : ℕ
  pub theme : String
  pub price : ℤ
  pub cur_price : ℤ
  pub type : QuestionType
  pub is_default : Bool
  pub answer_type : AnswerType
  pub sub : QSub
  pub answerer_id : String
  pub answerers : List String
  pub content : List GroupView
  pub options : Option Payload
  pub excluded : List String
  pub right_answer : Option RightAnswer
  pub stakes : Option StakesView
  pub hidden_stakes : Dict ℤ
  pub hidden_answers : Dict AnswerView
  pub rights : List String
  pub wrongs : List String
  pub history : List OutcomeView
  pub armed : Bool
  pub thinking_ms : ℤ
  pub eligible : List String

-- A prompt is the payload with which it was asked.
pub record Snapshot : Type 0 where
  pub role : Role
  pub person_id : String
  pub stage : Stage
  pub sub : Option QSub
  pub round_index : ℤ
  pub round_name : String
  pub round_type : RoundType
  pub table : Payload
  pub chooser_id : String
  pub players : List PlayerInfo
  pub scores : List ScoreEntry
  pub rules : Rules
  pub times : TimeSettings
  pub paused : Bool
  pub wait_next : Bool
  pub timers : List TimerView
  pub winner : String
  pub ended : Bool
  pub question : Option QuestionView
  pub pending : Option PendingView
  pub appeal : Option AppealView
  pub ask_choose : Option Payload
  pub ask_answer : Option Payload
  pub ask_stake : Option Payload
  pub ask_validate : Option Payload
  pub ask_delete_theme : Option Payload
  pub ask_appeal_vote : Option Payload

abbrev pub timer_view : Timer → TimerView
timer_view t = record {
  id = t.id;
  kind = t.kind;
  duration_ms = t.duration_ms;
  started_at_ms = t.started_at_ms;
  paused = t.paused;
  remaining_ms = t.remaining_ms;
  person_id = t.person_id;
}

abbrev pub pending_view : Option Pending → Option PendingView
pending_view none = none
pending_view (some p) =
    some (record { kind = p.kind; decider_id = p.decider_id; candidates = p.candidates })

abbrev pub is_showman : Role → Bool
is_showman Role.showman = true
is_showman _ = false

abbrev pub when {ℓ} : {A : Type ℓ} → Bool → A → Option A
when true x = some x
when false x = none

-- The answer of the outcome that is appealed against; without one the source would fault.
abbrev pub appealed_answer : ℕ → Option QuestionState → String
appealed_answer i none = ""
appealed_answer i (some q) = elim (get_elem? q.history i) [ none ↦ "" | some o ↦ o.answer ]

abbrev pub rights_of : Option QuestionState → List String
rights_of none = []
rights_of (some q) = q.rights

unfoldable pub appeal_view : Game → Option Appeal → Option AppealView
unfolding count_votes
appeal_view g none = none
appeal_view g (some a) = some (record {
  kind = a.kind;
  appellant_id = a.appellant_id;
  answerer_id = a.answerer_id;
  answer = appealed_answer a.outcome_idx g.st.question;
  in_favour = (count_votes a.votes).0;
  against = (count_votes a.votes).1;
  pending = a.pending;
})

abbrev pub appeal_prompt : Game → String → Option Appeal → Option Payload
appeal_prompt g person none = none
appeal_prompt g person (some a) = when (elem person a.pending) (
    Payload.ask_appeal_vote a.kind a.answerer_id (appealed_answer a.outcome_idx g.st.question)
      (rights_of g.st.question))

abbrev pub has_pending : Option Pending → Bool
has_pending none = false
has_pending (some p) = true

-- Everything that does not come from the question.
unfoldable pub table_view : Role → String → Game → Snapshot
unfolding table_payload player_infos scores sequential final_remaining_themes appeal_view
table_view role person g =
    let st = g.st in
    record {
      role = role;
      person_id = person;
      stage = st.stage;
      sub = none;
      round_index = st.round_index;
      round_name = st.round_name;
      round_type = st.round_type;
      table = table_payload g;
      chooser_id = st.chooser_id;
      players = player_infos g;
      scores = scores g;
      rules = st.rules;
      times = st.times;
      paused = st.paused;
      wait_next = st.wait_next;
      timers = map timer_view st.timers;
      winner = st.winner;
      ended = st.ended;
      question = none;
      pending = pending_view st.pending;
      appeal = appeal_view g st.appeal;
      ask_choose =
          when
            (st.stage == Stage.selecting
              && not (has_pending st.pending)
              && person == st.chooser_id
              && not (sequential g))
            (Payload.ask_choose st.chooser_id st.times.question_selection_ms);
      ask_answer = none;
      ask_stake = none;
      ask_validate = none;
      ask_delete_theme =
          when (st.stage == Stage.final_themes && st.deleter_id == person) (
            Payload.ask_delete_theme person (final_remaining_themes g) st.times.theme_selection_ms);
      ask_appeal_vote = appeal_prompt g person st.appeal;
    }

-- The phases in which the content is not shown yet.
abbrev pub before_content : QSub → Bool
before_content QSub.announcing = true
before_content QSub.secret_transfer = true
before_content QSub.price_select = true
before_content QSub.stakes = true
before_content _ = false

-- The groups up to the cursor; `left` counts those that may still be shown.
unfoldable pub shown_groups : ℕ → ℕ → List ContentGroup → List GroupView
unfolding view_items
shown_groups zero i grps = []
shown_groups (suc left) i [] = []
shown_groups (suc left) i (grp ∷ grps) =
    record { index = i; items = view_items grp.items; wait_ms = grp.wait_ms }
    ∷ shown_groups left (suc i) grps

abbrev pub shown_content : QuestionState → List GroupView
shown_content q = if before_content q.sub then [] else shown_groups (suc q.cursor) 0 q.groups

unfoldable pub option_view : AnswerOption → AnswerOptionView
unfolding view_items
option_view o = record { label = o.label; content = view_items o.content }

abbrev pub is_revealed : QSub → Bool
is_revealed QSub.reveal = true
is_revealed QSub.end = true
is_revealed _ = false

abbrev pub first_right : List String → String
first_right [] = ""
first_right (r ∷ rs) = r

-- The right answer, when it is no secret any more.
unfoldable pub right_answer_view : QuestionState → Option RightAnswer
unfolding view_items
right_answer_view q = when (is_revealed q.sub) (record {
  text = first_right q.rights;
  items = view_items q.answer_items;
  comments = q.comments;
})

-- The answer of an outcome is hidden from the others while the question is hidden.
abbrev pub outcome_view : Role → String → Bool → Outcome → OutcomeView
outcome_view role person hidden o = record {
  person_id = o.person_id;
  answer = if is_showman role || not hidden || o.person_id == person then o.answer else "";
  right = o.right;
  factor = o.factor;
  delta = o.delta;
  reverted = o.reverted;
}

-- The bids in the order of the participants.
abbrev pub bids_of : StakeState → List String → Dict ℤ
bids_of ss [] = []
bids_of ss (id ∷ ids) = add (lookup id ss.bids) (bids_of ss ids)
  where
    add : Option ℤ → Dict ℤ → Dict ℤ
    add none rest = rest
    add (some b) rest = (id, b) ∷ rest

unfoldable pub stakes_view : Option StakeState → Option StakesView
unfolding flag lookup
stakes_view none = none
stakes_view (some ss) = some (record {
  nominal = ss.nominal;
  step = ss.step;
  stake = ss.stake;
  leader = ss.leader;
  current = ss.current;
  bids = bids_of ss ss.participants;
  passed = keep (λ id. not (flag id ss.active)) ss.participants;
  all_in = keep (λ id. flag id ss.all_in) ss.participants;
})

-- Whether a hidden stake or answer of the player is shown: to the showman, to the player, and to
-- all once it is revealed.
abbrev pub is_visible : Role → String → QuestionState → String → Bool
is_visible role person q id =
    is_showman role || id == person || elem id (take q.reveal_idx q.answerers)

-- One entry, when the player is in the game, passes the test and is visible.
abbrev pub add_entry {ℓ} :
    {V : Type ℓ}
    → Role
    → String
    → QuestionState
    → (Player → Bool)
    → (Player → V)
    → String
    → Option Player
    → Dict V
    → Dict V
add_entry role person q test value id none rest = rest
add_entry role person q test value id (some p) rest =
    if test p && is_visible role person q id then (id, value p) ∷ rest else rest

unfoldable pub visible_of {ℓ} :
    {V : Type ℓ}
    → Role
    → String
    → QuestionState
    → (Player → Bool)
    → (Player → V)
    → State
    → List String
    → Dict V
unfolding player
visible_of role person q test value st [] = []
visible_of role person q test value st (id ∷ ids) =
    add_entry role person q test value id (player st id)
      (visible_of role person q test value st ids)

abbrev pub hidden_stakes_view : Role → String → QuestionState → State → Dict ℤ
hidden_stakes_view role person q st =
    if q.hidden && q.hidden_all
    then visible_of role person q (λ p. p.stake_made) (λ p. p.stake) st q.answerers
    else []

abbrev pub hidden_answers_view : Role → String → QuestionState → State → Dict AnswerView
hidden_answers_view role person q st =
    if q.hidden
    then visible_of role person q (λ p. p.answered) (λ p. p.answer) st q.answerers
    else []

unfoldable pub question_view : Role → String → QuestionState → Game → QuestionView
unfolding eligible_ids shown_groups option_view right_answer_view stakes_view visible_of
question_view role person q g = record {
  question_id = q.id;
  theme_index = q.theme_index;
  question_index = q.question_index;
  theme = q.caption;
  price = q.price;
  cur_price = q.cur_price_right;
  type = q.type;
  is_default = q.is_default;
  answer_type = q.answer_type;
  sub = q.sub;
  answerer_id = q.answerer_id;
  answerers = q.answerers;
  content = shown_content q;
  options = when q.options_shown (
      Payload.answer_options (map option_view q.options) g.st.rules.display_answer_options_labels
        g.st.rules.display_answer_options_one_by_one);
  excluded = if q.options_shown then map (λ e. e.0) q.excluded_options else [];
  right_answer = right_answer_view q;
  stakes = stakes_view q.stakes;
  hidden_stakes = hidden_stakes_view role person q g.st;
  hidden_answers = hidden_answers_view role person q g.st;
  rights = if is_showman role then q.rights else [];
  wrongs = if is_showman role then q.wrongs else [];
  history = map (outcome_view role person q.hidden) q.history;
  armed = q.armed;
  thinking_ms = q.thinking_remain;
  eligible = if q.armed then eligible_ids g else [];
}

-- The later prompt counts.
abbrev pub over : Option Payload → Option Payload → Option Payload
over none later = later
over (some p) none = some p
over (some p) (some later) = some later

abbrev pub bid_prompt : String → QuestionState → Game → Option StakeState → Option Payload
bid_prompt person q g none = none
bid_prompt person q g (some ss) = when (q.sub == QSub.stakes && ss.current == person) (
    Payload.ask_stake person ss.allowed_modes ss.min ss.max ss.step "stake"
      g.st.times.stake_making_ms)

unfoldable pub hidden_stake_prompt : String → QuestionState → Game → Option Player → Option Payload
unfolding is_answerer
hidden_stake_prompt person q g none = none
hidden_stake_prompt person q g (some p) =
    when
      (q.hidden
        && p.in_game
        && is_answerer person g
        && q.sub == QSub.stakes
        && q.hidden_all
        && not p.stake_made)
      (Payload.ask_stake person (StakeMode.stake ∷ StakeMode.all_in ∷ []) (pos 1) p.score (pos 1)
        "hiddenStake" g.st.times.stake_making_ms)

unfoldable pub hidden_answer_prompt : String → QuestionState → Game → Option Player → Option Payload
unfolding is_answerer answer_duration
hidden_answer_prompt person q g none = none
hidden_answer_prompt person q g (some p) =
    when
      (q.hidden
        && p.in_game
        && is_answerer person g
        && q.sub == QSub.hidden_answering
        && not p.answered
        && active p)
      (Payload.ask_answer person q.answer_type (answer_duration g.st.times.hidden_answering_ms g)
        true false)

abbrev pub last_choice : ℤ → List ℤ → ℤ
last_choice x [] = x
last_choice x (y ∷ ys) = last_choice y ys

-- Two or more prices to choose from.
abbrev pub price_prompt : String → QuestionState → Game → List ℤ → Option Payload
price_prompt person q g (x ∷ y ∷ ys) =
    when (q.sub == QSub.price_select && q.answerer_id == person) (
      Payload.ask_stake person (StakeMode.stake ∷ []) x (last_choice y ys) (sub64 y x) "secretPrice"
        g.st.times.stake_making_ms)
price_prompt person q g _ = none

unfoldable pub answer_prompt : String → QuestionState → Game → Option Payload
unfolding answer_duration
answer_prompt person q g =
    let def = if q.button then g.st.times.answering_ms else g.st.times.solo_answering_ms in
    when (q.sub == QSub.answering && q.answerer_id == person && q.known) (
      Payload.ask_answer person q.answer_type (answer_duration def g) false
        (not (q.pending_answer_id == "")))

abbrev pub validate_prompt : Role → QuestionState → Game → Option Payload
validate_prompt role q g =
    when
      (is_showman role
        && not (q.pending_answer_id == "")
        && (q.sub == QSub.validating || q.sub == QSub.answering))
      (Payload.ask_validate q.pending_answer_id q.pending_answer q.rights q.wrongs true
        (q.sub == QSub.answering) g.st.times.showman_decision_ms false)

unfoldable pub with_question_view : Role → String → QuestionState → Game → Snapshot → Snapshot
unfolding question_view player hidden_stake_prompt hidden_answer_prompt answer_prompt
with_question_view role person q g s =
    let me = player g.st person in
    record s {
      sub = some q.sub;
      question = some (question_view role person q g);
      ask_stake =
          over (over (bid_prompt person q g q.stakes) (hidden_stake_prompt person q g me))
            (price_prompt person q g q.price_choices);
      ask_answer = over (hidden_answer_prompt person q g me) (answer_prompt person q g);
      ask_validate = validate_prompt role q g;
    }

unfoldable pub add_question : Role → String → Option QuestionState → Game → Snapshot → Snapshot
unfolding with_question_view
add_question role person none g s = s
add_question role person (some q) g s =
    if g.st.stage == Stage.question then with_question_view role person q g s else s

unfoldable pub snapshot : Role → String → Game → Snapshot
unfolding table_view add_question
snapshot role person g = add_question role person g.st.question g (table_view role person g)
