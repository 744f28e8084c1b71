-- ===== src/Engine/Question.antt =====
-- internal/engine/question.go, "question start", and the questions of one answerer.
use sigame_server.Prelude.{
  Bool, List, Option, String, [], false, get_elem?, if◌then◌else◌, int_eq, ltb_ℤ, map, mul64, none,
  pos, some, string_eq, true, ℕ, ℤ, ◌==◌, ◌||◌, ◌∷◌, ◌▷◌,
}
use sigame_server.Pack.{ContentItem, Pack, is_known, round_type_eq}
use sigame_server.Pack
use sigame_server.Engine.Kinds.{Phase, QSub, Stage}
use sigame_server.Engine.State.{QuestionState}
use sigame_server.Engine.Event.{EvType, Payload}
use sigame_server.Engine.Game.{
  Game, emit_all, emit_stage, emit_table, showman, with_question, with_state,
}
use sigame_server.Engine.Table.{default_question_type, pack_question, round_of, with_cell}
use sigame_server.Engine.Tail.{Tail, Turn, finish, goto, on_question}
use sigame_server.Engine.Score.{any_text, current_chooser, wrong_price}
use sigame_server.Engine.Content.{build_groups}
use sigame_server.Engine.Answer.Button.{simple_begin}
use sigame_server.Engine.Secret.{secret_begin}
use sigame_server.Engine.Stake.{stake_begin}
use sigame_server.Engine.Hidden.{for_all_begin, stake_all_begin}
use sigame_server.Engine.Flow.{reset_player}

abbrev is_unset : Pack.QuestionType → Bool
is_unset Pack.QuestionType.unset = true
is_unset _ = false

abbrev answer_type_or_text : Pack.AnswerType → Pack.AnswerType
answer_type_or_text Pack.AnswerType.unset = Pack.AnswerType.text
answer_type_or_text t = t

-- The type that the question is played as.
unfoldable pub played_type : Pack.Question → Game → Pack.QuestionType
unfolding default_question_type
played_type pq g = if is_unset pq.type then default_question_type g else pq.type

abbrev theme_name : ℕ → Game → String
theme_name t g = elim (get_elem? g.st.table t) [ none ↦ "" | some th ↦ th.name ]

-- A negative price counts as 0; where wrong answers cost nothing the price of one is 0.
abbrev nominal : Pack.Question → ℤ
nominal pq = if ltb_ℤ pq.price (pos 0) then pos 0 else pq.price

-- The items of the question, behind the comments of its theme where the rules want them.
unfoldable pub question_items : ℕ → Pack.Question → Game → List ContentItem
unfolding round_of
question_items t pq g =
    if g.st.rules.prepend_theme_comments_to_question
    then prepend (theme_comments (round_of g))
    else pq.params.question
  where
    theme_comments : Option Pack.Round → String
    theme_comments none = ""
    theme_comments (some r) = elim (get_elem? r.themes t) [ none ↦ "" | some th ↦ th.info.comments ]

    prepend : String → List ContentItem
    prepend c =
        if any_text c
        then record {
          type = Pack.ContentType.text;
          text = c;
          media_id = "";
          url = "";
          placement = Pack.Placement.unset;
          duration_ms = pos 0;
          no_wait = false;
        }
          ∷ pq.params.question
        else pq.params.question

unfoldable pub new_question : ℕ → ℕ → Pack.Question → Game → QuestionState
unfolding played_type
new_question t q pq g = record {
  theme_index = t;
  question_index = q;
  id = pq.id;
  type = played_type pq g;
  is_default = is_unset pq.type;
  known = is_known (played_type pq g);
  answer_type = answer_type_or_text pq.params.answer_type;
  price = nominal pq;
  cur_price_right = nominal pq;
  cur_price_wrong = if g.st.rules.ignore_wrong then pos 0 else nominal pq;
  sub = QSub.announcing;
  caption = theme_name t g;
  is_final = g.st.round_type == Pack.RoundType.final;
  button = false;
  armed = false;
  direct = false;
  hidden = false;
  hidden_all = false;
  secret_public = false;
  no_question = false;
  options_shown = false;
  answerer_id = "";
  answerers = [];
  reveal_idx = 0;
  groups = [];
  cursor = 0;
  phase = Phase.question;
  content_done = false;
  wait_next = false;
  thinking_remain = pos 0;
  stakes = none;
  options = pq.params.answer_options;
  excluded_options = [];
  validation_cache = [];
  pending_answer_id = "";
  pending_answer = "";
  pre_verdicts = [];
  history = [];
  appeal_queue = [];
  against_used = false;
  rights = pq.right;
  wrongs = pq.wrong;
  answer_items = pq.params.answer;
  comments = pq.info.comments;
  price_choices = [];
  stake_all_missing = pos 0;
  awaiting_media_ids = false;
}

abbrev hint : Pack.Question → Game → Game
hint pq g =
    if g.st.rules.hint_showman || any_text pq.info.showman_comments
    then showman EvType.showman_hint
        (Payload.showman_hint (if g.st.rules.hint_showman then pq.right else [])
          (if g.st.rules.hint_showman then pq.wrong else []) pq.info.showman_comments
          pq.info.comments)
        g
    else g

unfoldable pub no_risk_begin : Game → Turn
unfolding current_chooser wrong_price
no_risk_begin = on_question λ q g.
    let price = mul64 q.price g.st.rules.for_yourself_factor in
    with_question
      (λ q. record q {
        direct = true;
        answerer_id = current_chooser g;
        cur_price_right = price;
        cur_price_wrong = wrong_price g.st.rules.for_yourself_penalty price g;
      })
      g
    ▷ emit_all EvType.question_caption (Payload.question_caption q.caption price)
    ▷ goto Tail.play_content

-- The script of a question type.
unfoldable pub begin_question : Pack.QuestionType → Game → Turn
unfolding simple_begin stake_begin secret_begin no_risk_begin for_all_begin stake_all_begin
begin_question Pack.QuestionType.simple = simple_begin
begin_question Pack.QuestionType.stake = stake_begin
begin_question Pack.QuestionType.secret = secret_begin false false
begin_question Pack.QuestionType.secret_public_price = secret_begin true false
begin_question Pack.QuestionType.secret_no_question = secret_begin false true
begin_question Pack.QuestionType.no_risk = no_risk_begin
begin_question Pack.QuestionType.for_all = for_all_begin
begin_question Pack.QuestionType.stake_all = stake_all_begin
begin_question _ = goto Tail.play_content

abbrev announce_question : ℕ → ℕ → Pack.Question → Game → Game
announce_question t q pq g =
    emit_all EvType.question_start
      (Payload.question_start pq.id t q (theme_name t g) (nominal pq) (played_type pq g)
        (is_unset pq.type) (answer_type_or_text pq.params.answer_type))
      g

unfoldable pub start_question : ℕ → ℕ → Game → Turn
unfolding pack_question new_question reset_player build_groups question_items emit_stage showman
    emit_table played_type begin_question
start_question t q g = elim (pack_question t q g) [
  | none ↦ finish g
  | some pq ↦
      let opened = with_cell t q (λ c. record c { played = true }) g ▷ (λ g.
        with_state
          (λ s. record s {
            question = some (record (new_question t q pq g) {
              groups = build_groups g (question_items t pq g);
            });
            stage = Stage.question;
            pending = none;
            players = map reset_player s.players;
          })
          g) in
      opened
      ▷ emit_stage
      ▷ announce_question t q pq
      ▷ hint pq
      ▷ emit_table
      ▷ begin_question (played_type pq g)
]
