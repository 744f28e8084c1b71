-- ===== src/Engine/Secret.antt =====
-- internal/engine/question.go, "secret": a question that is handed over to another player.
use sigame_server.Prelude.{
  Bool, List, Option, String, [], add64, false, if◌then◌else◌, int_eq, keep, leb_ℤ, ltb_ℤ, map,
  none, not, pos, pos_part, some, string_eq, sub64, suc, true, zero, ℕ, ℤ, ◌&&◌, ◌+◌, ◌-ℤ◌, ◌==◌,
  ◌||◌, ◌∷◌, ◌▷◌,
}
use sigame_server.Pack.{Pack, selection_mode_eq}
use sigame_server.Pack
use sigame_server.Engine.Rules.{Penalty}
use sigame_server.Engine.Kinds.{PendingKind, PlayerState, QSub, StakeMode, TimerKind}
use sigame_server.Engine.State.{Outcome, QuestionState, active_players}
use sigame_server.Engine.Event.{EvType, Payload}
use sigame_server.Engine.Game.{
  Game, add_score, emit_all, set_chooser, set_player_state, set_sub, showman, to, with_question,
  with_state,
}
use sigame_server.Engine.Timers.{start_timer}
use sigame_server.Engine.Table.{pack_question, round_min_max}
use sigame_server.Engine.Tail.{Tail, Turn, finish, goto, on_player, on_question}
use sigame_server.Engine.Score.{any_text, current_chooser, one, with_history, wrong_price}

-- `st.Pending = …` and the request to the decider.
unfoldable pub ask_select_player : PendingKind → String → List String → Game → Game
unfolding to showman start_timer
ask_select_player kind decider candidates g =
    let transfer = is_transfer kind in
    let dur = if transfer then g.st.times.player_selection_ms else g.st.times.showman_decision_ms in
    let timer_kind = if transfer then TimerKind.player_selection else TimerKind.showman_decision in
    let ask = Payload.ask_select_player kind candidates decider dur in
    with_state
      (λ s. record s {
        pending = some (record { kind = kind; decider_id = decider; candidates = candidates });
      })
      g
    ▷ to decider EvType.ask_select_player ask
    ▷ (λ g'. if transfer && g.st.rules.oral then showman EvType.ask_select_player ask g' else g')
    ▷ start_timer timer_kind dur decider
  where
    is_transfer : PendingKind → Bool
    is_transfer PendingKind.secret_transfer = true
    is_transfer _ = false

-- `for v := lo; v <= hi; v += step`; the fuel bounds the rounds.
unfoldable pub price_range : ℕ → ℤ → ℤ → ℤ → List ℤ
price_range zero v hi step = []
price_range (suc fuel) v hi step =
    let rest = price_range fuel (add64 v step) hi step in if leb_ℤ v hi then v ∷ rest else []

-- As many rounds as there are integers from `lo` to `hi`.
abbrev pub range_fuel : ℤ → ℤ → ℕ
range_fuel lo hi = pos_part (hi -ℤ lo) + 2

-- Expands a price choice; without one the choice is the nominal price.
unfoldable pub secret_price_choices : Game → ℤ → Option Pack.NumberSet → List ℤ
unfolding price_range round_min_max ◌-ℤ◌
secret_price_choices g price none = price ∷ []
secret_price_choices g price (some ns) =
    if ns.min == ns.max
    then (if ns.min == pos 0
        then (let (lo, hi) = round_min_max g in if lo == hi then lo ∷ [] else lo ∷ hi ∷ [])
        else ns.min ∷ [])
    else (let lo = if ltb_ℤ ns.max ns.min then ns.max else ns.min in
        let hi = if ltb_ℤ ns.max ns.min then ns.min else ns.max in
        if leb_ℤ ns.step (pos 0) || leb_ℤ (sub64 hi lo) ns.step
        then lo ∷ hi ∷ []
        else price_range (range_fuel lo hi) lo hi ns.step)

-- The choices at the question that is being played; it stands in the pack.
abbrev pub price_choices_of : QuestionState → Game → List ℤ
price_choices_of q g = elim (pack_question q.theme_index q.question_index g) [
  | none ↦ []
  | some pq ↦ secret_price_choices g q.price pq.params.price
]

abbrev sole_price : List ℤ → ℤ
sole_price (price ∷ []) = price
sole_price _ = pos 0

unfoldable pub announce_secret_price : Game → Game
unfolding secret_price_choices
announce_secret_price g = elim (g.st.question) [
  | none ↦ g
  | some q ↦
      emit_all EvType.question_caption
        (Payload.question_caption q.caption (sole_price (price_choices_of q g))) g
]

-- Who may receive the question.
unfoldable pub transfer_candidates : Pack.SelectionMode → Game → List String
unfolding active_players current_chooser
transfer_candidates mode g =
    let chooser = current_chooser g in
    let cands =
      map (λ p. p.id)
        (keep (λ p. not (mode == Pack.SelectionMode.except_current && p.id == chooser))
          (active_players g.st)) in
    elim cands [ [] ↦ chooser ∷ [] | c ∷ cs ↦ c ∷ cs ]

unfoldable pub secret_transfer : Pack.SelectionMode → Game → Turn
unfolding transfer_candidates ask_select_player set_sub
secret_transfer mode g = transfer (transfer_candidates mode g)
  where
    transfer : List String → Turn
    transfer (c ∷ []) = goto (Tail.secret_recipient_chosen c) g
    transfer cands = finish (
        set_sub QSub.secret_transfer g
        ▷ ask_select_player PendingKind.secret_transfer (current_chooser g) cands)

unfoldable pub secret_begin : Bool → Bool → Game → Turn
unfolding announce_secret_price secret_transfer
secret_begin public no_question = on_question λ q g.
    elim (pack_question q.theme_index q.question_index g) [
      | none ↦ finish g
      | some pq ↦
          with_question
            (λ q. record q {
              direct = true;
              secret_public = public;
              no_question = no_question;
              caption = if any_text pq.params.theme then pq.params.theme else q.caption;
            })
            g
          ▷ (λ g. if public then announce_secret_price g else g)
          ▷ secret_transfer pq.params.selection_mode
    ]

abbrev pub last_or : ℤ → List ℤ → ℤ
last_or d [] = d
last_or d (v ∷ vs) = last_or v vs

abbrev ask_price : QuestionState → ℤ → ℤ → List ℤ → Game → Game
ask_price q lo next rest g =
    let choices = lo ∷ next ∷ rest in
    let dur = g.st.times.stake_making_ms in
    let ask =
      Payload.ask_stake q.answerer_id (StakeMode.stake ∷ []) lo (last_or lo choices) (sub64 next lo)
        "secretPrice" dur in
    with_question (λ q. record q { price_choices = choices }) g
    ▷ set_sub QSub.price_select
    ▷ to q.answerer_id EvType.ask_stake ask
    ▷ (λ g. if g.st.rules.oral then showman EvType.ask_stake ask g else g)
    ▷ start_timer TimerKind.stake_making dur q.answerer_id

unfoldable pub secret_price_select : Game → Turn
unfolding secret_price_choices set_sub to showman start_timer
secret_price_select = on_question λ q g. select q g (price_choices_of q g)
  where
    select : QuestionState → Game → List ℤ → Turn
    select q g [] = finish g
    select q g (price ∷ []) = goto (Tail.secret_after_price price) g
    select q g (lo ∷ next ∷ rest) = finish (ask_price q lo next rest g)

unfoldable pub secret_recipient_chosen : String → Game → Turn
unfolding set_chooser announce_secret_price secret_price_select
secret_recipient_chosen id = on_question λ q g.
    with_question (λ q. record q { answerer_id = id }) g
    ▷ set_chooser id "secretRecipient"
    ▷ (λ g. if q.secret_public then g else announce_secret_price g)
    ▷ secret_price_select

unfoldable pub secret_after_price : ℤ → Game → Turn
unfolding wrong_price add_score set_player_state set_sub
secret_after_price price = on_question λ q g.
    let priced =
      with_question
        (λ q. record q {
          price_choices = [];
          cur_price_right = price;
          cur_price_wrong = wrong_price Penalty.subtract price g;
        })
        g
      ▷ emit_all EvType.question_caption (Payload.question_caption q.caption price) in
    if q.no_question
    then on_player q.answerer_id
        (λ p g.
          add_score p.id price "secret" g
          ▷ set_player_state p.id PlayerState.right
          ▷ with_question (with_history (received p.id))
          ▷ set_sub QSub.reveal
          ▷ goto Tail.end_question)
        priced
    else goto Tail.play_content priced
  where
    received : String → Outcome
    received id = record {
      person_id = id;
      answer = "";
      right = true;
      factor = one;
      delta = price;
      pass = false;
      reverted = false;
    }
