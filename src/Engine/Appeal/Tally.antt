-- ===== src/Engine/Appeal/Tally.antt =====
-- internal/engine/appeal.go: what the tally of the votes leaves behind.
use mathlib.Core.List.{foldl}
use sigame_server.Engine.Event.{EvType, Payload}
use sigame_server.Prelude.{
  Bool, List, Option, String, [], arith, false, if◌then◌else◌, inl, inr, none, refl, some, subst,
  sym, true, ℤ, ◌∙◌, ◌∷◌, ◌≡◌, ◌⊎◌,
}
use sigame_server.Engine.Kinds.{TimerId, TimerKind}
use sigame_server.Engine.State.{Appeal, AppealRequest, QuestionState, Timer}
use sigame_server.Engine.Game.{Game, emit, emit_all, emit_sums, showman, to}
use sigame_server.Engine.Timers.{
  remove_timer, resume_timer, start_timer, stop_found, stop_kind, stop_timer, timer_of_kind,
}
use sigame_server.Engine.Appeal.Result.{
  appeal_apply, appeal_finish, ask_choose, close_appeal, is_upheld, next_appeal, resume_game,
  settle_appeal, tally, thaw,
}
use sigame_server.Engine.Tail.{Tail, Turn, finish, goto}

-- The same appeal and the same players.
abbrev pub SameVoters : Game → Game → Type 0
SameVoters g h = (h.st.appeal ≡ g.st.appeal) × (h.st.players ≡ g.st.players)

then-SameVoters : (g h k : Game) → SameVoters g h → SameVoters h k → SameVoters g k
then-SameVoters g h k (a, b) (c, d) = (c ∙ a, d ∙ b)

stop_timer-SameVoters : (id : TimerId) (g : Game) → SameVoters g (stop_timer id g)
unfolding stop_timer remove_timer emit_all emit
stop_timer-SameVoters id g = ground arith

stop_kind-SameVoters : (kind : TimerKind) (g : Game) → SameVoters g (stop_kind kind g)
unfolding stop_kind stop_found
stop_kind-SameVoters kind g = by_found (timer_of_kind kind g)
  where
    by_found : (o : Option Timer) → SameVoters g (stop_found o g)
    by_found none = (refl, refl)
    by_found (some t) = stop_timer-SameVoters t.id g

start_timer-SameVoters :
    (kind : TimerKind) (dur : ℤ) (id : String) (g : Game) → SameVoters g (start_timer kind dur id g)
unfolding start_timer emit_all emit
start_timer-SameVoters kind dur id g = let stopped = stop_kind-SameVoters kind g in ground arith

thaw-SameVoters : (g : Game) (t : Timer) → SameVoters g (thaw g t)
unfolding resume_timer emit_all emit
thaw-SameVoters g t = ground arith

thaw_all-SameVoters : (ts : List Timer) (g : Game) → SameVoters g (foldl thaw g ts)
thaw_all-SameVoters [] g = (refl, refl)
thaw_all-SameVoters (t ∷ ts) g =
    then-SameVoters g (thaw g t) (foldl thaw g (t ∷ ts)) (thaw-SameVoters g t)
      (thaw_all-SameVoters ts (thaw g t))

to-SameVoters : (id : String) (t : EvType) (p : Payload) (g : Game) → SameVoters g (to id t p g)
unfolding to emit
to-SameVoters id t p g = (refl, refl)

showman-SameVoters :
    (b : Bool) (t : EvType) (p : Payload) (g : Game) → SameVoters g (if b then showman t p g else g)
unfolding showman emit
showman-SameVoters true t p g = (refl, refl)
showman-SameVoters false t p g = (refl, refl)

ask_choose-SameVoters : (g : Game) → SameVoters g (ask_choose g)
ask_choose-SameVoters g =
    then-SameVoters g asked (ask_choose g)
      (then-SameVoters g sent asked (to-SameVoters g.st.chooser_id EvType.ask_choose ask g)
        (showman-SameVoters sent.st.rules.oral EvType.ask_choose ask sent))
      (start_timer-SameVoters TimerKind.question_selection dur asked.st.chooser_id asked)
  where
    dur : ℤ
    dur = g.st.times.question_selection_ms

    ask : Payload
    ask = Payload.ask_choose g.st.chooser_id dur

    sent : Game
    sent = to g.st.chooser_id EvType.ask_choose ask g

    asked : Game
    asked = if sent.st.rules.oral then showman EvType.ask_choose ask sent else sent

choice_lem :
    (g thawed : Game) (b c : Bool)
    → SameVoters g thawed
    → SameVoters g (
        (if b
          then goto Tail.after_question thawed
          else if c
          then finish (ask_choose (stop_kind TimerKind.question_selection thawed))
          else finish thawed).0)
choice_lem g thawed true c h = h
choice_lem g thawed false true h =
    let stopped = stop_kind TimerKind.question_selection thawed in
    then-SameVoters g stopped (ask_choose stopped)
      (then-SameVoters g thawed stopped h
        (stop_kind-SameVoters TimerKind.question_selection thawed))
      (ask_choose-SameVoters stopped)
choice_lem g thawed false false h = h

resume_game-SameVoters :
    (changed : Bool) (q : QuestionState) (g : Game) → SameVoters g ((resume_game changed q g).0)
resume_game-SameVoters changed q g =
    choice_lem g (foldl thaw g g.st.timers) _ _ (thaw_all-SameVoters g.st.timers g)

-- The appeal is gone, and the players are those of the game that is settled.
abbrev pub Closed : Game → Game → Type 0
Closed g h = (h.st.appeal ≡ none) × (h.st.players ≡ g.st.players)

close_appeal-Closed : (a : Appeal) (g : Game) → Closed g (close_appeal a g)
unfolding emit_all emit emit_sums
close_appeal-Closed a g = (refl, refl)

next_appeal-SameVoters :
    (changed : Bool) (q : QuestionState) (queue : List AppealRequest) (g : Game)
    → SameVoters g ((next_appeal changed q queue g).0)
next_appeal-SameVoters changed q [] g = resume_game-SameVoters changed q g
next_appeal-SameVoters changed q (r ∷ rs) g = (refl, refl)

settle_appeal-Closed : (a : Appeal) (r : Bool × Game) → Closed (r.1) ((settle_appeal a r).0)
settle_appeal-Closed a r = by_question (close_appeal a (r.1)).st.question
  where
    closed : Game
    closed = close_appeal a (r.1)

    by_question :
        (o : Option QuestionState)
        → Closed (r.1) (
            (elim o as (λ x. Turn) [
              | none ↦ finish closed
              | some q ↦ next_appeal (r.0) q q.appeal_queue closed
            ]).0)
    by_question none = close_appeal-Closed a (r.1)
    by_question (some q) =
        after ((next_appeal (r.0) q q.appeal_queue closed).0) (close_appeal-Closed a (r.1))
          (next_appeal-SameVoters (r.0) q q.appeal_queue closed)
      where
        after : (h : Game) → Closed (r.1) closed → SameVoters closed h → Closed (r.1) h
        after h (x, y) (z, w) = (z ∙ x, w ∙ y)

-- No appeal is left, and it was upheld, or no player has changed.
abbrev pub Tallied : Appeal → Game → Game → Type 0
Tallied a g h = (h.st.appeal ≡ none) × ((is_upheld a ≡ true) ⊎ (h.st.players ≡ g.st.players))

tally-Tallied : (a : Appeal) (g : Game) → Tallied a g ((tally (some a) g).0)
tally-Tallied a g = by_vote (is_upheld a) refl
  where
    stopped : Game
    stopped = stop_kind TimerKind.appellation g

    rejected : Closed stopped ((settle_appeal a (false, stopped)).0)
    rejected = settle_appeal-Closed a (false, stopped)

    by_vote :
        (b : Bool)
        → is_upheld a ≡ b
        → Tallied a g ((settle_appeal a (if b then appeal_apply a stopped else (false, stopped))).0)
    by_vote true e = ((settle_appeal-Closed a (appeal_apply a stopped)).0, inl e)
    by_vote false e =
        (rejected.0, inr (rejected.1 ∙ (stop_kind-SameVoters TimerKind.appellation g).1))

pub appeal_finish-Tallied :
    (a : Appeal) (g : Game) → g.st.appeal ≡ some a → Tallied a g ((appeal_finish g).0)
unfolding appeal_finish
appeal_finish-Tallied a g h = subst (λ o. Tallied a g ((tally o g).0)) (sym h) (tally-Tallied a g)
