-- ===== src/Engine/Timers.antt =====
-- internal/engine/engine.go, "timers". A `*Timer` that the source passes on is the timer's value: a
pub mod Kinds
pub mod Remaining
-- timer is reached once in each loop, and its id finds it again in the state.
use sigame_server.Prelude.{
  List, Option, String, [], add64, elem, false, find_first, if◌then◌else◌, int_eq, ltb_ℤ, map, none,
  pos, some, sub64, true, ℤ, ◌++◌, ◌==◌, ◌∷◌, ◌▷◌,
}
use sigame_server.Engine.Kinds.{TimerId, TimerKind, timer_id_eq, timer_kind_eq}
use sigame_server.Engine.State.{Timer}
use sigame_server.Engine.Event.{EvType, Payload}
use sigame_server.Engine.Game.{Game, emit_all}
use mathlib.Core.List.{foldl}

abbrev pub with_timers : (List Timer → List Timer) → Game → Game
with_timers f g = record g { st = record (g.st) { timers = f g.st.timers } }

-- The first timer with this id goes; the others stay.
unfoldable pub drop_timer : TimerId → List Timer → List Timer
drop_timer id [] = []
drop_timer id (t ∷ ts) = let rest = drop_timer id ts in if t.id == id then ts else t ∷ rest

-- A write through a `*Timer`.
abbrev pub set_timer : Timer → List Timer → List Timer
set_timer u = map (λ t. if t.id == u.id then u else t)

unfoldable pub find_timer : TimerId → Game → Option Timer
find_timer id g = find_first (λ t. t.id == id) g.st.timers

unfoldable pub timer_of_kind : TimerKind → Game → Option Timer
timer_of_kind kind g = find_first (λ t. t.kind == kind) g.st.timers

unfoldable pub remove_timer : TimerId → Game → Game
unfolding drop_timer
remove_timer id = with_timers (drop_timer id)

unfoldable pub stop_timer : TimerId → Game → Game
unfolding find_timer remove_timer
stop_timer id g = stop (find_timer id g)
  where
    stop : Option Timer → Game
    stop none = g
    stop (some t) = emit_all EvType.timer_stop (Payload.timer_stop t.id) (remove_timer id g)

unfoldable pub stop_found : Option Timer → Game → Game
unfolding stop_timer
stop_found none g = g
stop_found (some t) g = stop_timer t.id g

unfoldable pub stop_kind : TimerKind → Game → Game
unfolding timer_of_kind stop_found
stop_kind kind g = stop_found (timer_of_kind kind g) g

-- The loop of `stopAllExcept` over a copy of the timers.
unfoldable pub stop_each : List Timer → List TimerKind → Game → Game
unfolding stop_timer
stop_each [] kept g = g
stop_each (t ∷ ts) kept g = stop_each ts kept (if elem t.kind kept then g else stop_timer t.id g)

unfoldable pub stop_all_except : List TimerKind → Game → Game
unfolding stop_each
stop_all_except kept g = stop_each g.st.timers kept g

unfoldable pub remaining : Timer → Game → ℤ
remaining t g =
    if t.paused
    then t.remaining_ms
    else (let r = sub64 t.duration_ms (sub64 g.now t.started_at_ms) in
        if ltb_ℤ r (pos 0) then pos 0 else r)

abbrev pub new_timer : TimerKind → ℤ → ℤ → String → Game → Timer
new_timer kind seq dur person_id g = record {
  id = record { kind = kind; seq = seq };
  kind = kind;
  duration_ms = dur;
  started_at_ms = g.now;
  paused = g.st.paused;
  frozen = false;
  remaining_ms = if g.st.paused then dur else pos 0;
  person_id = person_id;
}

unfoldable pub start_timer : TimerKind → ℤ → String → Game → Game
unfolding stop_kind
start_timer kind dur person_id g =
    let stopped = stop_kind kind g in
    let seq = add64 stopped.timer_seq (pos 1) in
    let t = new_timer kind seq dur person_id stopped in
    let started =
      record stopped {
        timer_seq = seq;
        st = record (stopped.st) { timers = stopped.st.timers ++ t ∷ [] };
      }
      ▷ emit_all EvType.timer_start (Payload.timer_start t.id kind dur person_id) in
    if stopped.st.paused
    then emit_all EvType.timer_pause (Payload.timer_pause t.id kind dur) started
    else started

abbrev pub pause_event : Timer → Game → Game
pause_event t = emit_all EvType.timer_pause (Payload.timer_pause t.id t.kind t.remaining_ms)

-- Freezes a timer for the game's own reasons (a button win, an appeal).
unfoldable pub pause_timer : Timer → Game → Game
unfolding remaining
pause_timer t g =
    if t.paused
    then with_timers (set_timer (record t { frozen = true })) g
    else (let u = record t { remaining_ms = remaining t g; paused = true; frozen = true } in
        pause_event u (with_timers (set_timer u) g))

unfoldable pub resume_timer : Timer → Game → Game
resume_timer t g =
    if t.paused
    then (let u = record t {
      paused = false;
      frozen = false;
      duration_ms = t.remaining_ms;
      started_at_ms = g.now;
    } in
        emit_all EvType.timer_resume (Payload.timer_pause u.id u.kind u.remaining_ms)
          (with_timers (set_timer u) g))
    else g

-- The showman's pause: a running timer stops and is not frozen.
unfoldable pub pause_running : Timer → Game → Game
unfolding remaining
pause_running t g =
    if t.paused
    then g
    else (let u = record t { remaining_ms = remaining t g; paused = true } in
        pause_event u (with_timers (set_timer u) g))

unfoldable pub pause_all_timers : Game → Game
unfolding pause_running
pause_all_timers g = foldl (λ g t. pause_running t g) g g.st.timers

unfoldable pub resume_all_timers : Game → Game
unfolding resume_timer
resume_all_timers g = foldl (λ g t. if t.frozen then g else resume_timer t g) g g.st.timers
