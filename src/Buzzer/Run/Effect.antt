-- ===== src/Buzzer/Run/Effect.antt =====
-- internal/buzzer/arm.go: the ways in which a press can change an arm.
use sigame_server.Prelude.{
  Bool, Option, String, ap, arith, false, if◌then◌else◌, none, not, refl, some, subst, true, ◌∙◌,
  ◌≡◌,
}
use sigame_server.Pack.{Float64}
use sigame_server.Buzzer.Floats.{Floats, ◌≺◌}
use sigame_server.Buzzer.Arm.{
  Arm, ArmPlayer, ArmState, Press, PressAck, PressIn, Session, Status, Store, conn_at, player_of,
}
use sigame_server.Buzzer.Press.{ack_of, score}
use sigame_server.Buzzer.Collect.{
  add_press, as_late, is_pending, late_press, lockout_end, mark_pressed, on_press, on_press_of,
  open_press, press_in, rate_checked, record_press, reschedule, settle_late, settle_press,
}
use sigame_server.Buzzer.Decide.{is_over}
use sigame_server.Buzzer.Run.Scored.{Human, Scored, score-Scored}

-- A player found by a name has that name.
abbrev pub Named : String → Option ArmPlayer → Type 0
Named id none = Unit
Named id (some ap) = ap.id ≡ id

abbrev pub Indexed : Arm → Type 0
Indexed a = (id : String) → Named id (player_of id a)

module _ ⦃fl : Floats⦄ where
  -- What may be counted: in time, and not faster than a human.
  abbrev pub Countable : Arm → Press → Type 0
  Countable a pr = ((a.disarm_at ≺ pr.t_final) ≡ false) × Human a.s pr

  -- An arm, and what `OnPress` may make of it.
  pub data Effect (a : Arm) : Arm → Type 0 where
    same : Effect a a
    after :
        (id : String) (pr : Press) (st : Status)
        → a.state ≡ ArmState.resolved
        → Effect a (record_press pr st (mark_pressed id a))
    refused : (pr : Press) (st : Status) → is_over a.state ≡ false → Effect a (record_press pr st a)
    counted :
        (pr : Press) (close : Float64) (who : ArmPlayer)
        → is_over a.state ≡ false
        → player_of pr.pid a ≡ some who
        → who.pressed ≡ false
        → Countable a pr
        → Effect a (record (add_press pr (mark_pressed pr.pid (record_press pr Status.pending a))) {
          close_at = close;
        })

  abbrev pub Changed : Arm → Session × PressAck → Type 0
  Changed a (ss, ack) = Effect a ss.arm

  if-Changed :
      (a : Arm) (b : Bool) (x y : Session × PressAck)
      → (b ≡ true → Changed a x)
      → (b ≡ false → Changed a y)
      → Changed a (if b then x else y)
  if-Changed a true x y h k = h refl
  if-Changed a false x y h k = k refl

  settle_late-Effect :
      (ap : ArmPlayer) (a : Arm) (r : Store × Press × PressAck)
      → a.state ≡ ArmState.resolved
      → Changed a (settle_late ap a r)
  unfolding settle_late
  settle_late-Effect ap a (conns, pr, ack) h =
      if-Changed a (is_pending ack.status) _ _
        (λ p. Effect.after ap.id (as_late a pr) Status.late h)
        (λ p. Effect.after ap.id pr ack.status h)

  late_press-Effect :
      (ap : ArmPlayer) (m : PressIn) (t : Float64) (ss : Session)
      → ss.arm.state ≡ ArmState.resolved
      → Changed ss.arm (late_press ap m t ss)
  unfolding late_press
  late_press-Effect ap m t ss h =
      if-Changed ss.arm ap.pressed _ _ (λ p. Effect.same)
        (λ p. settle_late-Effect ap ss.arm (score ss.arm ap m t ss.conns) h)

  settle_press-Effect :
      (who : ArmPlayer) (t : Float64) (a : Arm) (r : Store × Press × PressAck)
      → is_over a.state ≡ false
      → player_of who.id a ≡ some who
      → who.pressed ≡ false
      → Scored a.s who.id r
      → Changed a (settle_press who t a r)
  unfolding settle_press reschedule
  settle_press-Effect who t a (conns, pr, ack) h k fresh good =
      if-Changed a (not (is_pending ack.status)) _ _ (λ p. Effect.refused pr ack.status h)
        (λ p.
          if-Changed a (a.disarm_at ≺ pr.t_final) _ _ (λ q. Effect.refused pr Status.late h)
            (λ q.
              subst
                (λ id.
                  (close : Float64)
                  → Effect a
                      (record (add_press pr (mark_pressed id (record_press pr Status.pending a))) {
                        close_at = close;
                      }))
                (good.0)
                (λ close.
                  Effect.counted pr close who h (ap (λ id. player_of id a) (good.0) ∙ k) fresh
                    (q, good.1 (ground arith)))
                _))

  open_press-Effect :
      (who : ArmPlayer) (m : PressIn) (t : Float64) (ss : Session)
      → is_over ss.arm.state ≡ false
      → player_of who.id ss.arm ≡ some who
      → Changed ss.arm (open_press who m t ss)
  unfolding open_press
  open_press-Effect who m t ss h k =
      if-Changed ss.arm who.pressed _ _ (λ p. Effect.same)
        (λ p. by_lock (lockout_end t (conn_at who.conn ss.conns)) p)
    where
      by_lock :
          (o : Option Float64)
          → who.pressed ≡ false
          → Changed ss.arm (elim o [
            | some until ↦ (ss, record (ack_of Status.locked_out "") { lockout_until = until })
            | none ↦ settle_press who t ss.arm (score ss.arm who m t ss.conns)
          ])
      by_lock (some until) p = Effect.same
      by_lock none p =
          settle_press-Effect who t ss.arm (score ss.arm who m t ss.conns) h k p
            (score-Scored ss.arm who m t ss.conns)

  press_in-Effect :
      (st : ArmState) (who : ArmPlayer) (m : PressIn) (t : Float64) (ss : Session)
      → ss.arm.state ≡ st
      → player_of who.id ss.arm ≡ some who
      → Changed ss.arm (press_in st who m t ss)
  unfolding press_in
  press_in-Effect ArmState.disarmed who m t ss h k = Effect.same
  press_in-Effect ArmState.resolved who m t ss h k = late_press-Effect who m t ss h
  press_in-Effect ArmState.armed who m t ss h k = open_press-Effect who m t ss (ap is_over h) k
  press_in-Effect ArmState.collecting who m t ss h k = open_press-Effect who m t ss (ap is_over h) k
  press_in-Effect ArmState.draining who m t ss h k = open_press-Effect who m t ss (ap is_over h) k

  rate_checked-Effect :
      (ok : Bool) (who : ArmPlayer) (m : PressIn) (t : Float64) (ss : Session)
      → player_of who.id ss.arm ≡ some who
      → Changed ss.arm (rate_checked ok who m t ss)
  rate_checked-Effect true who m t ss k = press_in-Effect ss.arm.state who m t ss refl k
  rate_checked-Effect false who m t ss k = Effect.same

  on_press_of-Effect :
      (o : Option ArmPlayer) (m : PressIn) (t : Float64) (ss : Session)
      → player_of m.player_id ss.arm ≡ o
      → Named m.player_id o
      → Changed ss.arm (on_press_of o m t ss)
  unfolding on_press_of
  on_press_of-Effect none m t ss h k = Effect.same
  on_press_of-Effect (some who) m t ss h k =
      if-Changed ss.arm (not who.eligible) _ _ (λ p. Effect.same)
        (λ p. rate_checked-Effect _ who m t _ (ap (λ id. player_of id ss.arm) k ∙ h))

  -- A press leaves the arm as it is, is recorded as refused or late, or is counted: then the
  -- player has not pressed before, the press is in time, and in the anchored modes its reaction is
  -- not below the human floor.
  pub on_press-Effect :
      (m : PressIn) (t : Float64) (ss : Session)
      → Indexed ss.arm
      → Effect ss.arm ((on_press m t ss).0.arm)
  unfolding on_press
  on_press-Effect m t ss h =
      on_press_of-Effect (player_of m.player_id ss.arm) m t ss refl (h m.player_id)
