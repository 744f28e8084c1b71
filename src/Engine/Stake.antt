-- ===== src/Engine/Stake.antt =====
-- internal/engine/stake.go: the auction for a stake question.
pub mod Bids
pub mod Rounding
use sigame_server.Prelude.{
  Bool, List, Option, String, [], add64, elem, false, flag, if◌then◌else◌, insert, int_eq, leb_ℤ,
  length, ltb_ℤ, mul64, nat_eq, negsuc, none, not, pos, pos_part, some, string_eq, suc, true, ℕ, ℤ,
  ◌%◌, ◌&&◌, ◌++◌, ◌-ℤ◌, ◌/◌, ◌==◌, ◌||◌, ◌∷◌, ◌▷◌,
}
use sigame_server.Engine.Kinds.{PlayerState, QSub, StakeMode, TimerKind, stage_eq, stake_mode_eq}
use sigame_server.Engine.State.{Player, QuestionState, StakeState, active_players}
use sigame_server.Engine.Event.{EvType, Payload}
use sigame_server.Engine.Game.{
  Game, emit_all, set_player_state, set_sub, showman, to, with_question, with_state,
}
use sigame_server.Engine.Timers.{start_timer}
use sigame_server.Engine.Table.{stake_step}
use sigame_server.Engine.Tail.{Tail, Turn, finish, goto, on_player, on_question}
use sigame_server.Engine.Score.{current_chooser}

-- Go's `/` and `%`, which truncate towards zero; the divisor is positive here.
abbrev pub quo : ℤ → ℕ → ℤ
quo (pos n) d = pos (n / d)
quo (negsuc n) d = pos 0 -ℤ pos (suc n / d)

abbrev pub rem : ℤ → ℕ → ℤ
rem (pos n) d = pos (n % d)
rem (negsuc n) d = pos 0 -ℤ pos (suc n % d)

unfoldable pub round_up : ℤ → ℤ → ℤ
unfolding ◌-ℤ◌
round_up v step =
    if leb_ℤ step (pos 1) || rem v (pos_part step) == pos 0
    then v
    else mul64 (add64 (quo v (pos_part step)) (pos 1)) step

-- A change of the auction of the current question.
abbrev pub with_stakes : (StakeState → StakeState) → Game → Game
with_stakes f = with_question λ q. record q { stakes = change q.stakes }
  where
    change : Option StakeState → Option StakeState
    change none = none
    change (some ss) = some (f ss)

abbrev pub on_stakes : (QuestionState → StakeState → Game → Turn) → Game → Turn
on_stakes f = on_question λ q g. elim q.stakes [ none ↦ finish g | some ss ↦ f q ss g ]

abbrev pub announce_stake : String → StakeMode → ℤ → Game → Game
announce_stake id mode amount =
    emit_all EvType.person_stake (Payload.person_stake id mode amount false)

abbrev init_stakes : ℤ → ℤ → StakeState
init_stakes step nominal = record {
  step = step;
  nominal = nominal;
  participants = [];
  active = [];
  bids = [];
  has_bid = [];
  all_in = [];
  order = [];
  current = "";
  stake = pos 0;
  leader = "";
  any_all_in = false;
  allowed_modes = [];
  min = pos 0;
  max = pos 0;
}

-- The loop that seats the bidders; the others pass.
unfoldable pub seat_bidders : String → ℤ → List Player → StakeState × Game → StakeState × Game
unfolding set_player_state
seat_bidders chooser price [] (ss, g) = (ss, g)
seat_bidders chooser price (p ∷ ps) (ss, g) = seat_bidders chooser price ps (
    if p.id == chooser || ltb_ℤ price p.score
    then (
      record ss {
        participants = ss.participants ++ p.id ∷ [];
        active = insert p.id true ss.active;
      },
      g,
    )
    else (
      ss,
      announce_stake p.id StakeMode.pass (pos 0) g ▷ set_player_state p.id PlayerState.pass,
    ))

unfoldable pub stake_begin : Game → Turn
unfolding seat_bidders current_chooser stake_step set_sub active_players
stake_begin = on_question λ q g.
    let chooser = current_chooser g in
    let (ss, seated) =
      seat_bidders chooser q.price (active_players g.st)
        (init_stakes (stake_step g) q.price, with_question (λ q. record q { direct = true }) g) in
    with_question (λ q. record q { stakes = some ss }) seated
    ▷ set_sub QSub.stakes
    ▷ goto (if chooser == "" then Tail.show_answer else Tail.stake_ask_bid chooser)

-- Whose turn it is, and a first turn in the order.
abbrev take_turn : String → StakeState → StakeState
take_turn id ss = record ss {
  current = id;
  order =
      if not (flag id ss.has_bid) && not (elem id ss.order) then ss.order ++ id ∷ [] else ss.order;
}

-- The bids that the rules leave: their modes, the least and the greatest.
abbrev pub opening_modes : ℤ → ℤ → List StakeMode
opening_modes nominal score =
    StakeMode.nominal
    ∷ (if ltb_ℤ nominal score
        then StakeMode.stake ∷ StakeMode.all_in ∷ []
        else StakeMode.all_in ∷ [])

abbrev pub raising_modes : Bool → ℤ → ℤ → List StakeMode
raising_modes any_all_in min_b score =
    StakeMode.pass
    ∷ (if not any_all_in && leb_ℤ min_b score
        then StakeMode.stake ∷ StakeMode.all_in ∷ []
        else StakeMode.all_in ∷ [])

abbrev ask_bid : Player → StakeState → List StakeMode → ℤ → ℤ → Game → Turn
ask_bid p ss modes min_b max_b g =
    let dur = g.st.times.stake_making_ms in
    let ask = Payload.ask_stake p.id modes min_b max_b ss.step "stake" dur in
    finish (
      with_stakes (λ ss. record ss { allowed_modes = modes; min = min_b; max = max_b }) g
      ▷ to p.id EvType.ask_stake ask
      ▷ (λ g. if g.st.rules.oral then showman EvType.ask_stake ask g else g)
      ▷ start_timer TimerKind.stake_making dur p.id)

-- Gives the turn to a bidder, or bids or passes where the rules leave no choice.
unfoldable pub stake_ask_bid : String → Game → Turn
unfolding to showman start_timer round_up
stake_ask_bid id = on_stakes λ q ss g.
    let turn = with_state (λ s. record s { pending = none }) g ▷ with_stakes (take_turn id) in
    on_player id
      (λ p turn.
        if ltb_ℤ (pos 0) ss.stake && leb_ℤ p.score ss.stake
        then goto (Tail.stake_set_pass p.id) turn
        else if ss.stake == pos 0
        then (if ltb_ℤ p.score ss.nominal || length ss.participants == 1
            then goto (Tail.stake_apply p.id StakeMode.nominal ss.nominal) turn
            else ask_bid p ss (opening_modes ss.nominal p.score) ss.nominal p.score turn)
        else (let min_b = round_up (add64 ss.stake ss.step) ss.step in
            ask_bid p ss (raising_modes ss.any_all_in min_b p.score) min_b p.score turn))
      turn
