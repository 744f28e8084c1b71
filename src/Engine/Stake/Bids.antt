-- ===== src/Engine/Stake/Bids.antt =====
-- internal/engine/stake.go: bids, passes and the winner of the auction.
use sigame_server.Prelude.{
  Bool, List, Option, String, [], any, false, flag, get_elem?, if◌then◌else◌, insert, keep, leb_ℤ,
  length, none, not, pos, some, string_eq, suc, true, zero, ℕ, ℤ, ◌%◌, ◌&&◌, ◌+◌, ◌==◌, ◌||◌, ◌∷◌,
  ◌▷◌,
}
use sigame_server.Engine.Rules.{Penalty}
use sigame_server.Engine.Kinds.{
  PendingKind, PlayerState, QSub, Stage, StakeMode, TimerKind, stage_eq, stake_mode_eq,
}
use sigame_server.Engine.State.{Player, QuestionState, StakeState, player}
use sigame_server.Engine.Event.{EvType, Payload}
use sigame_server.Engine.Game.{
  Game, emit_all, set_chooser, set_player_state, with_question, with_state,
}
use sigame_server.Engine.Timers.{stop_kind}
use sigame_server.Engine.Table.{ids, lowest_of}
use sigame_server.Engine.Tail.{Tail, Turn, finish, goto, on_player, on_question}
use sigame_server.Engine.Score.{wrong_price}
use sigame_server.Engine.Secret.{ask_select_player}
use sigame_server.Engine.Stake.{announce_stake, on_stakes, with_stakes}

abbrev pub stake_mode_allowed : StakeState → StakeMode → Bool
stake_mode_allowed ss mode = any (λ m. m == mode) ss.allowed_modes

abbrev mark_pass : String → StakeState → StakeState
mark_pass id ss = record ss {
  active = insert id false ss.active;
  has_bid = insert id true ss.has_bid;
}

unfoldable pub stake_mark_pass : String → Game → Game
unfolding set_player_state
stake_mark_pass id g =
    with_stakes (mark_pass id) g
    ▷ announce_stake id StakeMode.pass (pos 0)
    ▷ set_player_state id PlayerState.pass

-- The amount that a mode stands for.
abbrev pub bid_amount : StakeMode → ℤ → ℤ → ℤ → ℤ
bid_amount StakeMode.nominal nominal score amount = nominal
bid_amount StakeMode.all_in nominal score amount = score
bid_amount _ nominal score amount = amount

abbrev pub place_bid : String → StakeMode → ℤ → StakeState → StakeState
place_bid id mode amount ss = record ss {
  has_bid = insert id true ss.has_bid;
  all_in = if mode == StakeMode.all_in then insert id true ss.all_in else ss.all_in;
  any_all_in = ss.any_all_in || mode == StakeMode.all_in;
  bids = insert id amount ss.bids;
  stake = amount;
  leader = id;
}

-- The bidders who cannot top the new bid pass.
unfoldable pub pass_outbid : String → ℤ → List String → Game → Game
unfolding stake_mark_pass flag player
pass_outbid leader amount [] g = g
pass_outbid leader amount (id ∷ rest) g = pass_outbid leader amount rest (elim (g.st.question) [
  | none ↦ g
  | some q ↦ elim q.stakes [
    | none ↦ g
    | some ss ↦ if id == leader || not (flag id ss.active) then g else elim (player g.st id) [
      | none ↦ g
      | some o ↦ if leb_ℤ o.score amount then stake_mark_pass id g else g
    ]
  ]
])

-- Records a bid of the current bidder.
unfoldable pub stake_apply : String → StakeMode → ℤ → Game → Turn
unfolding stop_kind pass_outbid
stake_apply id mode given = on_stakes λ q ss g.
    on_player id
      (λ p g.
        let amount = bid_amount mode ss.nominal p.score given in
        with_stakes (place_bid id mode amount) (stop_kind TimerKind.stake_making g)
        ▷ announce_stake id mode amount
        ▷ pass_outbid id amount ss.participants
        ▷ goto Tail.stake_advance)
      g

unfoldable pub stake_active_ids : StakeState → List String
unfolding flag
stake_active_ids ss = keep (λ id. flag id ss.active) ss.participants

abbrev pub is_sole : String → List String → Bool
is_sole leader (id ∷ []) = id == leader
is_sole leader _ = false

-- A pass of the current bidder, or an early pass of another.
unfoldable pub stake_set_pass : String → Game → Turn
unfolding stake_mark_pass stop_kind stake_active_ids flag
stake_set_pass id = on_stakes λ q ss g.
    if not (flag id ss.active)
    then finish g
    else (let passed = stake_mark_pass id g in
        if ss.current == id
        then goto Tail.stake_advance (stop_kind TimerKind.stake_making passed)
        else if is_sole ss.leader (stake_active_ids (mark_pass id ss))
        then goto (Tail.stake_winner ss.leader) passed
        else finish passed)

-- The last place of the current bidder in the order.
unfoldable pub order_start : String → ℕ → ℕ → List String → ℕ
order_start current i start [] = start
order_start current i start (id ∷ rest) =
    order_start current (suc i) (if id == current then i else start) rest

-- The first active bidder but the leader from the i-th place behind `start` on, round the order.
unfoldable pub next_bidder : StakeState → ℕ → ℕ → ℕ → Option String
unfolding flag
next_bidder ss start i zero = none
next_bidder ss start i (suc left) =
    let rest = next_bidder ss start (suc i) left in
    elim (get_elem? ss.order ((start + i) % length ss.order)) [
      | none ↦ rest
      | some id ↦ if flag id ss.active && not (id == ss.leader) then some id else rest
    ]

-- The active bidders who have not bid, of whom the poorest goes first.
unfoldable pub unbid_players : StakeState → Game → List Player
unfolding flag player stake_active_ids
unbid_players ss g = pick (stake_active_ids ss)
  where
    cons_some : Option Player → List Player → List Player
    cons_some none ps = ps
    cons_some (some p) ps = p ∷ ps

    pick : List String → List Player
    pick [] = []
    pick (id ∷ rest) =
        let others = pick rest in
        if flag id ss.has_bid then others else cons_some (player g.st id) others

-- Picks the next bidder or the winner.
unfoldable pub stake_advance : Game → Turn
unfolding stake_active_ids unbid_players lowest_of ask_select_player next_bidder order_start
stake_advance = on_stakes λ q ss g. advance ss g (stake_active_ids ss)
  where
    after_bids : StakeState → Game → Turn
    after_bids ss g =
        elim (next_bidder ss (order_start ss.current 0 0 ss.order) 1 (length ss.order)) [
          | some id ↦ goto (Tail.stake_ask_bid id) g
          | none ↦ goto (Tail.stake_winner ss.leader) g
        ]

    first_bid : StakeState → Game → List Player → Turn
    first_bid ss g [] = after_bids ss g
    first_bid ss g (p ∷ []) = goto (Tail.stake_ask_bid p.id) g
    first_bid ss g low = finish (ask_select_player PendingKind.staker g.st.showman_id (ids low) g)

    advance : StakeState → Game → List String → Turn
    advance ss g [] =
        goto (if ss.leader == "" then Tail.show_answer else Tail.stake_winner ss.leader) g
    advance ss g (id ∷ rest) =
        if is_sole ss.leader (id ∷ rest)
        then goto (Tail.stake_winner ss.leader) g
        else first_bid ss g (lowest_of [] (unbid_players ss g))

unfoldable pub stake_winner : String → Game → Turn
unfolding stop_kind wrong_price set_chooser
stake_winner id = on_stakes λ q ss g.
    stop_kind TimerKind.stake_making g
    ▷ with_state (λ s. record s { pending = none })
    ▷ with_question (λ q. record q {
      answerer_id = id;
      cur_price_right = ss.stake;
      cur_price_wrong = wrong_price Penalty.subtract ss.stake g;
    })
    ▷ set_chooser id "stakeWinner"
    ▷ emit_all EvType.question_caption (Payload.question_caption q.caption ss.stake)
    ▷ goto Tail.play_content

unfoldable pub stake_timeout : Game → Turn
unfolding player
stake_timeout =
    on_question λ q g. if g.st.stage == Stage.question then timeout q g q.sub else finish g
  where
    bid : StakeState → Game → Turn
    bid ss = on_player ss.current (λ p. goto (
        if stake_mode_allowed ss StakeMode.pass
        then Tail.stake_set_pass p.id
        else Tail.stake_apply p.id StakeMode.nominal ss.nominal))

    timeout : QuestionState → Game → QSub → Turn
    timeout q g QSub.price_select = elim q.price_choices [
      | [] ↦ finish g
      | c ∷ cs ↦ goto (Tail.secret_after_price c) g
    ]
    timeout q g QSub.stakes =
        if q.hidden_all
        then goto Tail.hidden_stakes_timeout g
        else elim q.stakes [ none ↦ finish g | some ss ↦ bid ss g ]
    timeout q g _ = finish g
