-- ===== src/Engine/Timers/Remaining.antt =====
-- internal/engine/engine.go, "timers": what is left of a timer across a pause and a resume.
use sigame_server.Prelude.{
  Bool, IsInt64, List, Option, [], ap, arith, eq_of_parts, false, find_first, if◌then◌else◌, int64,
  int64-IsInt64, int64_of_range, ltb_ℤ, none, pos, refl, some, sub64, sub_ℤ_parts, subst, sym, true,
  ℤ, ◌-ℤ◌, ◌==◌, ◌∙◌, ◌∷◌, ◌≡◌,
}
use sigame_server.Engine.Kinds.{TimerId, timer_id_eq}
use sigame_server.Engine.State.{Timer}
use sigame_server.Engine.Game.{Game, emit, emit_all}
use sigame_server.Engine.Timers.Kinds.{id_refl}
use sigame_server.Engine.Timers.{
  find_timer, pause_event, pause_running, remaining, resume_timer, set_timer, with_timers,
}

-- A running timer as the showman's pause leaves it.
abbrev pub held : Timer → Game → Timer
held t g = record t { remaining_ms = remaining t g; paused = true }

-- The game at a later time.
abbrev pub at_time : ℤ → Game → Game
at_time now g = record g { now = now }

-- What is left of the timer with this id.
abbrev pub left : TimerId → Game → Option ℤ
left id g = elim (find_timer id g) [ none ↦ none | some t ↦ some (remaining t g) ]

-- A write through a timer that is there is found again under its id.
find-set_timer :
    (u t : Timer) (ts : List Timer)
    → find_first (λ t. t.id == u.id) ts ≡ some t
    → find_first (λ t. t.id == u.id) (set_timer u ts) ≡ some u
find-set_timer u t [] h = ground arith
find-set_timer u t (v ∷ vs) h = by_test (v.id == u.id) refl (find-set_timer u t vs)
  where
    skip :
        (v : Timer) (ts : List Timer)
        → (v.id == u.id) ≡ false
        → find_first (λ t. t.id == u.id) (v ∷ ts) ≡ find_first (λ t. t.id == u.id) ts
    skip v ts e = ap (λ b. if b then some v else find_first (λ t. t.id == u.id) ts) e

    by_test :
        (b : Bool)
        → (v.id == u.id) ≡ b
        → (find_first (λ t. t.id == u.id) vs ≡ some t
            → find_first (λ t. t.id == u.id) (set_timer u vs) ≡ some u)
        → find_first (λ t. t.id == u.id) ((if b then u else v) ∷ set_timer u vs) ≡ some u
    by_test true e rest = ground (arith, id_refl u.id)
    by_test false e rest = skip v (set_timer u vs) e ∙ rest (sym (skip v vs e) ∙ h)

sub64_same : (a : ℤ) → sub64 a a ≡ pos 0
sub64_same a =
    ap int64 (eq_of_parts (a -ℤ a) (pos 0) (omega (arith, sub_ℤ_parts a a)))
    ∙ int64_of_range (pos 0) (omega arith, omega arith)

sub64_zero : (a : ℤ) → IsInt64 a → sub64 a (pos 0) ≡ a
sub64_zero a h =
    ap int64 (eq_of_parts (a -ℤ pos 0) a (omega (arith, sub_ℤ_parts a (pos 0))))
    ∙ int64_of_range a h

remaining_range : (t : Timer) (g : Game) → t.paused ≡ false → IsInt64 (remaining t g)
unfolding remaining
remaining_range t g h =
    subst (λ b. IsInt64 (if b then t.remaining_ms else clipped)) (sym h)
      (by_sign (ltb_ℤ raw (pos 0)))
  where
    raw : ℤ
    raw = sub64 t.duration_ms (sub64 g.now t.started_at_ms)

    clipped : ℤ
    clipped = if ltb_ℤ raw (pos 0) then pos 0 else raw

    by_sign : (b : Bool) → IsInt64 (if b then pos 0 else raw)
    by_sign true = (omega arith, omega arith)
    by_sign false = int64-IsInt64 (t.duration_ms -ℤ sub64 g.now t.started_at_ms)

remaining_sign : (t : Timer) (g : Game) → t.paused ≡ false → ltb_ℤ (remaining t g) (pos 0) ≡ false
unfolding remaining
remaining_sign t g h =
    subst (λ b. ltb_ℤ (if b then t.remaining_ms else clipped) (pos 0) ≡ false) (sym h)
      (by_sign (ltb_ℤ raw (pos 0)) refl)
  where
    raw : ℤ
    raw = sub64 t.duration_ms (sub64 g.now t.started_at_ms)

    clipped : ℤ
    clipped = if ltb_ℤ raw (pos 0) then pos 0 else raw

    by_sign : (b : Bool) → ltb_ℤ raw (pos 0) ≡ b → ltb_ℤ (if b then pos 0 else raw) (pos 0) ≡ false
    by_sign true e = refl
    by_sign false e = e

-- A timer that starts now has its whole duration left.
remaining_fresh :
    (u : Timer) (g : Game)
    → u.paused ≡ false
    → u.started_at_ms ≡ g.now
    → IsInt64 u.duration_ms
    → ltb_ℤ u.duration_ms (pos 0) ≡ false
    → remaining u g ≡ u.duration_ms
unfolding remaining
remaining_fresh u g h e r s =
    ap (λ b. if b then u.remaining_ms else clipped) h
    ∙ (ap (λ x. if ltb_ℤ x (pos 0) then pos 0 else x) raw_eq
        ∙ ap (λ b. if b then pos 0 else u.duration_ms) s)
  where
    raw : ℤ
    raw = sub64 u.duration_ms (sub64 g.now u.started_at_ms)

    clipped : ℤ
    clipped = if ltb_ℤ raw (pos 0) then pos 0 else raw

    raw_eq : raw ≡ u.duration_ms
    raw_eq =
        ap (λ x. sub64 u.duration_ms x) (ap (λ x. sub64 g.now x) e ∙ sub64_same g.now)
        ∙ sub64_zero u.duration_ms r

-- A timer that runs and is found under its id is held by the showman's pause with what is left of
-- it, and when it goes on, at whatever later time, just as much is left.
pub resume_timer-remaining :
    (t : Timer) (g : Game) (now : ℤ)
    → find_timer t.id g ≡ some t
    → t.paused ≡ false
    → (find_timer t.id (pause_running t g) ≡ some (held t g))
      × (left t.id (resume_timer (held t g) (at_time now (pause_running t g)))
          ≡ some (remaining t g))
unfolding find_timer pause_running resume_timer emit_all emit
resume_timer-remaining t g now hf hp = (
  found,
  ap (λ o. elim o [ none ↦ none | some v ↦ some (remaining v resumed) ])
        (find-set_timer going (held t g) (pause_running t g).st.timers found)
      ∙ ap some (
          remaining_fresh going resumed refl refl (remaining_range t g hp) (remaining_sign t g hp)),
)
  where
    going : Timer
    going = record t {
      remaining_ms = remaining t g;
      paused = false;
      frozen = false;
      duration_ms = remaining t g;
      started_at_ms = now;
    }

    resumed : Game
    resumed = resume_timer (held t g) (at_time now (pause_running t g))

    pausing : Bool → Game
    pausing b = if b then g else pause_event (held t g) (with_timers (set_timer (held t g)) g)

    found : find_timer t.id (pause_running t g) ≡ some (held t g)
    found = ap (λ b. find_timer t.id (pausing b)) hp ∙ find-set_timer (held t g) t g.st.timers hf
