-- ===== src/Buzzer/Run/Audit.antt =====
-- internal/buzzer/arm.go: what the score returns for a refused press.
use sigame_server.Prelude.{Bool, Option, arith, false, none, refl, some, true, ◌≡◌}
use sigame_server.Pack.{Float64}
use sigame_server.Buzzer.Floats.{Floats, lit}
use sigame_server.Buzzer.Settings.{Mode}
use sigame_server.Buzzer.Arm.{Arm, ArmPlayer, Press, PressAck, PressIn, Status, Store}
use sigame_server.Buzzer.Press.{
  accept_anchored, begin_anchored, conclude_anchored, flag_early, is_too_early, refuse, score,
  score_anchored, score_by,
}
use sigame_server.Buzzer.Collect.{is_pending}
use sigame_server.Buzzer.Run.Scored.{is_fair_mode}

module _ ⦃fl : Floats⦄ where
  -- A press that is not pending carries neither its arrival nor its reaction.
  abbrev Blank : Store × Press × PressAck → Type 0
  Blank (conns, pr, ack) =
      is_pending ack.status ≡ false → (pr.reaction ≡ lit 0) × (pr.t_arr ≡ lit 0)

  flag_early-blank :
      (b : Bool) (o : Option Float64) (pr : Press)
      → pr.reaction ≡ lit 0
      → pr.t_arr ≡ lit 0
      → ((flag_early b o pr).reaction ≡ lit 0) × ((flag_early b o pr).t_arr ≡ lit 0)
  flag_early-blank true (some u) pr h k = (h, k)
  flag_early-blank true none pr h k = (h, k)
  flag_early-blank false (some u) pr h k = (h, k)
  flag_early-blank false none pr h k = (h, k)

  refuse-Blank :
      (a : Arm) (t : Float64) (pr : Press) (st : Status) (conns : Store)
      → pr.reaction ≡ lit 0
      → pr.t_arr ≡ lit 0
      → Blank (refuse a t pr st conns)
  unfolding refuse
  refuse-Blank a t pr st conns h k p = flag_early-blank (is_too_early st) _ pr h k

  conclude-Blank :
      (a : Arm) (t : Float64) (blank : Press) (conns : Store) (pr : Press) (v : Option Status)
      → blank.reaction ≡ lit 0
      → blank.t_arr ≡ lit 0
      → Blank (conclude_anchored a t blank conns pr v)
  unfolding conclude_anchored accept_anchored
  conclude-Blank a t blank conns pr (some st) h k = refuse-Blank a t blank st conns h k
  conclude-Blank a t blank conns pr none h k = λ p. ground arith

  begin-Blank :
      (a : Arm) (m : PressIn) (t : Float64) (blank : Press) (conns : Store) (v : Option Status)
      → blank.reaction ≡ lit 0
      → blank.t_arr ≡ lit 0
      → Blank (begin_anchored a m t blank conns v)
  unfolding begin_anchored
  begin-Blank a m t blank conns (some st) h k = refuse-Blank a t blank st conns h k
  begin-Blank a m t blank conns none h k = conclude-Blank a t blank _ _ _ h k

  score_by-Blank :
      (mode : Mode) (a : Arm) (who : ArmPlayer) (m : PressIn) (t : Float64) (conns : Store)
      → is_fair_mode mode ≡ true
      → Blank (score_by mode a who m t conns)
  unfolding score_by score_anchored
  score_by-Blank Mode.server_arrival a who m t conns h = ground arith
  score_by-Blank Mode.random_window a who m t conns h = ground arith
  score_by-Blank Mode.client_reaction a who m t conns h = ground arith
  score_by-Blank Mode.anchored_hybrid a who m t conns h = begin-Blank a m t _ conns _ refl refl
  score_by-Blank Mode.written_all a who m t conns h = begin-Blank a m t _ conns _ refl refl
  score_by-Blank Mode.unknown a who m t conns h = begin-Blank a m t _ conns _ refl refl

  -- In the anchored modes, where the score answers a press with a status that is not pending, the
  -- press that it returns has reaction 0 and arrival 0.
  pub score-refused :
      (a : Arm) (who : ArmPlayer) (m : PressIn) (t : Float64) (conns : Store)
      → is_fair_mode a.s.mode ≡ true
      → is_pending ((score a who m t conns).2.status) ≡ false
      → (((score a who m t conns).1).reaction ≡ lit 0) × (((score a who m t conns).1).t_arr ≡ lit 0)
  unfolding score
  score-refused a who m t conns h = score_by-Blank a.s.mode a who m t conns h
