-- ===== src/Engine/Appeal.antt =====
-- internal/engine/appeal.go: appeals against a verdict, and the vote on them.
pub mod Result
pub mod Tally
pub mod Votes
use sigame_server.Prelude.{
  Bool, Dict, List, Option, String, [], add64, false, get_elem?, if◌then◌else◌, insert, int_eq,
  keep, length, lookup, ltb, map, nat_eq, none, not, pos, some, string_eq, suc, true, ℕ, ℤ, ◌&&◌,
  ◌*◌, ◌++◌, ◌==◌, ◌||◌, ◌∷◌, ◌▷◌,
}
use sigame_server.Engine.Rules.{mode_eq}
use sigame_server.Engine.Kinds.{AppealKind, Error, QSub, Stage, TimerKind, stage_eq, sub_eq}
use sigame_server.Engine.State.{
  Appeal, AppealRequest, Outcome, Player, QuestionState, active_players,
}
use sigame_server.Engine.Command.{Command}
use sigame_server.Engine.Event.{EvType, Payload}
use sigame_server.Engine.Game.{Game, emit_all, to, with_player, with_question, with_state}
use sigame_server.Engine.Timers.{pause_timer, resume_timer, start_timer, timer_of_kind}
use sigame_server.Engine.Monad.{M, get, guard, or_fail, player_actor, pure, run, ◌>>=◌, ◌>>◌}
use sigame_server.Engine.Tail.{Tail, Turn, finish, goto, on_question}
use mathlib.Core.List.{foldl}

-- The last outcome of the history that passes the test, by its index.
unfoldable pub last_index : (Outcome → Bool) → ℕ → List Outcome → Option ℕ
last_index test i [] = none
last_index test i (o ∷ os) = elim (last_index test (suc i) os) [
  | some j ↦ some j
  | none ↦ if test o then some i else none
]

abbrev pub is_rejected : String → Outcome → Bool
is_rejected id o = o.person_id == id && not o.right && not o.pass && not o.reverted

abbrev pub is_accepted : Outcome → Bool
is_accepted o = o.right && not o.reverted

-- The request of an appeal for the appellant's own answer.
abbrev appeal_for : QuestionState → Player → M AppealRequest
appeal_for q p = do
  idx ← or_fail (last_index (is_rejected p.id) 0 q.history) Error.not_allowed
  guard (not p.appeal_used) Error.not_allowed
  run (with_player p.id (λ p. record p { appeal_used = true }))
  pure
      (record { kind = AppealKind.for; appellant_id = p.id; answerer_id = p.id; outcome_idx = idx })

-- The request of an appeal against another player's accepted answer.
abbrev appeal_against : QuestionState → Player → M AppealRequest
appeal_against q p = do
  g ← get
  guard (ltb 3 (length (active_players g.st))) Error.not_allowed
  guard (not q.hidden) Error.not_allowed
  guard (not q.against_used) Error.not_allowed
  idx ← or_fail (last_index is_accepted 0 q.history) Error.not_allowed
  o ← or_fail (get_elem? q.history idx) Error.not_allowed
  guard (not (o.person_id == p.id)) Error.not_allowed
  run (with_question (λ q. record q { against_used = true }))
  pure (record {
    kind = AppealKind.against;
    appellant_id = p.id;
    answerer_id = o.person_id;
    outcome_idx = idx;
  })

abbrev pub is_none {ℓ} : {A : Type ℓ} → Option A → Bool
is_none none = true
is_none (some a) = false

abbrev has_history : QuestionState → Bool
has_history q = elim q.history [ [] ↦ false | _ ∷ _ ↦ true ]

unfoldable pub on_appellate : Command → M Tail
unfolding player_actor last_index active_players
on_appellate cmd = do
  p ← player_actor cmd.actor
  g ← get
  guard g.st.rules.use_appellations Error.not_allowed
  q ← or_fail g.st.question Error.bad_state
  guard (has_history q && not (g.st.stage == Stage.lobby) && not (g.st.stage == Stage.game_end))
      Error.bad_state
  req ← if cmd.for then appeal_for q p else appeal_against q p
  run (with_player p.id (λ p. record p { appeals = add64 p.appeals (pos 1) }))
  run (with_question (λ q. record q { appeal_queue = q.appeal_queue ++ req ∷ [] }))
  pure (if q.sub == QSub.end && is_none g.st.appeal then Tail.process_appeals else Tail.done)

-- Who has a vote before anybody is asked.
abbrev pub initial_votes : AppealRequest → String → Dict Bool
initial_votes req showman_id = by_kind req.kind
  where
    by_kind : AppealKind → Dict Bool
    by_kind AppealKind.for = insert showman_id false (insert req.appellant_id true [])
    by_kind AppealKind.against =
        insert req.appellant_id false (insert req.answerer_id true (insert showman_id true []))

abbrev open_appeal : AppealRequest → Game → Appeal
open_appeal req g =
    let voters = map (λ p. p.id) (active_players g.st) ++ g.st.showman_id ∷ [] in
    let votes = initial_votes req g.st.showman_id in
    record {
      request = req;
      voters = voters;
      votes = votes;
      total = length voters;
      pending = keep (λ v. is_none (lookup v votes)) voters;
    }

-- The votes for and against.
unfoldable pub count_votes : Dict Bool → ℕ × ℕ
count_votes [] = (0, 0)
count_votes ((id, vote) ∷ votes) =
    let (f, ag) = count_votes votes in (if vote then suc f else f, if vote then ag else suc ag)

unfoldable pub appeal_decided : Appeal → Bool
unfolding count_votes
appeal_decided a =
    let (f, ag) = count_votes a.votes in
    length a.pending == 0 || ltb a.total (f * 2) || ltb a.total (ag * 2)

abbrev ask_votes : Appeal → String → List String → Game → Game
ask_votes a answer rights g =
    foldl
      (λ g v.
        to v EvType.ask_appeal_vote (Payload.ask_appeal_vote a.kind a.answerer_id answer rights) g)
      g a.pending

-- The appellation timer, which starts paused where the game is paused.
abbrev start_vote : ℤ → Game → Game
start_vote dur g =
    let started = start_timer TimerKind.appellation dur "" g in
    if g.st.paused then started else elim (timer_of_kind TimerKind.appellation started) [
      | none ↦ started
      | some t ↦ if t.paused then resume_timer t started else started
    ]

unfoldable pub appeal_start : AppealRequest → Game → Turn
unfolding active_players pause_timer lookup insert appeal_decided start_timer timer_of_kind
    resume_timer to
appeal_start req = on_question λ q g.
    let a = open_appeal req g in
    let answer : String = elim (get_elem? q.history req.outcome_idx) [
      | none ↦ ""
      | some o ↦ o.answer
    ] in
    let dur = g.st.times.appellation_ms in
    let opened =
      with_state (λ s. record s { appeal = some a }) g
      ▷ (λ g. foldl (λ g t. pause_timer t g) g g.st.timers)
      ▷ emit_all EvType.appeal_start
          (Payload.appeal_start a.kind a.appellant_id a.answerer_id answer a.voters dur)
      ▷ ask_votes a answer q.rights in
    if appeal_decided a then goto Tail.appeal_finish opened else finish (start_vote dur opened)

abbrev is_reverted : List Outcome → ℕ → Bool
is_reverted history i = elim (get_elem? history i) [ none ↦ false | some o ↦ o.reverted ]

-- Starts the next queued appeal whose outcome still stands.
unfoldable pub process_appeals : Game → Turn
unfolding appeal_start
process_appeals g =
    if is_none g.st.appeal then on_question (λ q. next q q.appeal_queue) g else finish g
  where
    next : QuestionState → List AppealRequest → Game → Turn
    next q [] g = finish g
    next q (req ∷ rest) g =
        let popped = with_question (λ q. record q { appeal_queue = rest }) g in
        if is_reverted q.history req.outcome_idx
        then goto Tail.process_appeals popped
        else appeal_start req popped

-- The voters without the last place of one of them; `none` where it has none.
unfoldable pub remove_last : String → List String → Option (List String)
remove_last id [] = none
remove_last id (v ∷ vs) = elim (remove_last id vs) [
  | some rest ↦ some (v ∷ rest)
  | none ↦ if v == id then some vs else none
]

abbrev pub cast_rest : Command → Appeal → Player → List String → M Tail
cast_rest cmd a p pending = do
  let voted = record a { pending = pending; votes = insert p.id cmd.right a.votes }
  run (with_state (λ s. record s { appeal = some voted }))
  run (emit_all EvType.appeal_vote (Payload.appeal_vote p.id cmd.right))
  pure (if appeal_decided voted then Tail.appeal_finish else Tail.done)

-- The vote of a player who is asked.
unfoldable pub cast_vote : Command → Appeal → Player → M Tail
unfolding remove_last insert appeal_decided emit_all
cast_vote cmd a p = do
  pending ← or_fail (remove_last p.id a.pending) Error.not_allowed
  cast_rest cmd a p pending

unfoldable pub on_vote_appeal : Command → M Tail
unfolding player_actor cast_vote
on_vote_appeal cmd = do
  g ← get
  a ← or_fail g.st.appeal Error.bad_state
  p ← player_actor cmd.actor
  cast_vote cmd a p
