-- ===== src/Buzzer/Run/Over.antt =====
-- internal/buzzer/arm.go: the decision is final.
use sigame_server.Prelude.{
  Bool, List, Option, String, [], ap, arith, false, if◌then◌else◌, none, refl, some, sym, true, ◌∙◌,
  ◌∷◌, ◌≡◌,
}
use sigame_server.Pack.{Float64}
use sigame_server.Buzzer.Floats.{Floats}
use sigame_server.Buzzer.Arm.{Arm, ArmPlayer, ArmState, Session, with_player}
use sigame_server.Buzzer.Collect.{
  ack_by, eligible_by, mark_pressed, misfire_by, on_arm_ack, on_misfire, on_sent, record_press,
  reschedule, rescheduled, set_eligible,
}
use sigame_server.Buzzer.Decide.{
  disarm, force_resolve, is_over, resolve, resolve_by, set_rotate_after,
}
use sigame_server.Buzzer.Run.{Call, run, step}
use sigame_server.Buzzer.Run.Effect.{Effect, Indexed, on_press-Effect}
use sigame_server.Buzzer.Run.Sound.{Sound, step-Sound}

-- What nobody may change once the button is decided.
abbrev pub SameDecision : Arm → Arm → Type 0
SameDecision a b = (b.state ≡ a.state) × (b.result ≡ a.result) × (b.presses ≡ a.presses)

module _ ⦃fl : Floats⦄ where
  trans_decision : (a b c : Arm) → SameDecision a b → SameDecision b c → SameDecision a c
  trans_decision a b c h k = (k.0 ∙ h.0, k.1 ∙ h.1, k.2 ∙ h.2)

  never : {P : Type 0} → true ≡ false → P
  never p = ground arith

  Effect-SameDecision : (a b : Arm) → is_over a.state ≡ true → Effect a b → SameDecision a b
  unfolding record_press mark_pressed with_player
  Effect-SameDecision a b over Effect.same = (refl, refl, refl)
  Effect-SameDecision a b over (Effect.after id pr st h) = (refl, refl, refl)
  Effect-SameDecision a b over (Effect.refused pr st h) = never (sym over ∙ h)
  Effect-SameDecision a b over (Effect.counted pr close who h found fresh good) =
      never (sym over ∙ h)

  rescheduled-SameDecision :
      (st : ArmState) (t : Float64) (ss : Session) → SameDecision ss.arm ((rescheduled st t ss).arm)
  unfolding reschedule
  rescheduled-SameDecision ArmState.collecting t ss = (refl, refl, refl)
  rescheduled-SameDecision ArmState.armed t ss = (refl, refl, refl)
  rescheduled-SameDecision ArmState.draining t ss = (refl, refl, refl)
  rescheduled-SameDecision ArmState.resolved t ss = (refl, refl, refl)
  rescheduled-SameDecision ArmState.disarmed t ss = (refl, refl, refl)

  eligible_by-SameDecision :
      (o : Option ArmPlayer) (id : String) (b : Bool) (t : Float64) (ss : Session)
      → SameDecision ss.arm ((eligible_by o id b t ss).arm)
  unfolding with_player
  eligible_by-SameDecision none id b t ss = (refl, refl, refl)
  eligible_by-SameDecision (some who) id b t ss = rescheduled-SameDecision ss.arm.state t _

  if-SameDecision :
      (a : Arm) (b : Bool) (x y : Session)
      → SameDecision a x.arm
      → SameDecision a y.arm
      → SameDecision a ((if b then x else y).arm)
  if-SameDecision a true x y h k = h
  if-SameDecision a false x y h k = k

  ack_by-SameDecision :
      (o : Option ArmPlayer) (id : String) (t : Float64) (ss : Session)
      → SameDecision ss.arm ((ack_by o id t ss).arm)
  unfolding ack_by with_player
  ack_by-SameDecision none id t ss = (refl, refl, refl)
  ack_by-SameDecision (some who) id t ss =
      if-SameDecision ss.arm who.acked _ _ (refl, refl, refl) (refl, refl, refl)

  misfire_by-SameDecision :
      (o : Option ArmPlayer) (t : Float64) (ss : Session)
      → SameDecision ss.arm ((misfire_by o t ss).0.arm)
  unfolding misfire_by
  misfire_by-SameDecision none t ss = (refl, refl, refl)
  misfire_by-SameDecision (some who) t ss = (refl, refl, refl)

  resolve_by-SameDecision :
      (st : ArmState) (t : Float64) (a : Arm)
      → is_over st ≡ true
      → SameDecision a ((resolve_by st t a).0)
  resolve_by-SameDecision ArmState.resolved t a h = (refl, refl, refl)
  resolve_by-SameDecision ArmState.disarmed t a h = (refl, refl, refl)
  resolve_by-SameDecision ArmState.armed t a h = never (sym h)
  resolve_by-SameDecision ArmState.draining t a h = never (sym h)
  resolve_by-SameDecision ArmState.collecting t a h = never (sym h)

  if_over-SameDecision :
      (a : Arm) (b : Bool) (x : Arm) → b ≡ true → SameDecision a (if b then a else x)
  if_over-SameDecision a true x h = (refl, refl, refl)
  if_over-SameDecision a false x h = never (sym h)

  step-SameDecision :
      (c : Call) (ss : Session)
      → Indexed ss.arm
      → is_over ss.arm.state ≡ true
      → SameDecision ss.arm ((step c ss).arm)
  unfolding step on_sent on_arm_ack set_eligible on_misfire set_rotate_after resolve force_resolve
      disarm with_player
  step-SameDecision (Call.press m t) ss index over =
      Effect-SameDecision ss.arm _ over (on_press-Effect m t ss index)
  step-SameDecision (Call.sent id t) ss index over = (refl, refl, refl)
  step-SameDecision (Call.ack id t) ss index over = ack_by-SameDecision _ id t ss
  step-SameDecision (Call.eligible id b t) ss index over = eligible_by-SameDecision _ id b t ss
  step-SameDecision (Call.misfire id t) ss index over = misfire_by-SameDecision _ t ss
  step-SameDecision (Call.rotate seat) ss index over = (refl, refl, refl)
  step-SameDecision (Call.resolve_now t) ss index over =
      resolve_by-SameDecision ss.arm.state t ss.arm over
  step-SameDecision (Call.force_now t) ss index over = if_over-SameDecision ss.arm _ _ over
  step-SameDecision (Call.disarm_now t why) ss index over = if_over-SameDecision ss.arm _ _ over

  -- Once the button is resolved or disarmed, no sequence of calls changes the state, the result or
  -- the presses that counted, when the invariant of a running arm holds at that time.
  pub run-SameDecision :
      (cs : List Call) (ss : Session)
      → Sound ss.arm
      → is_over ss.arm.state ≡ true
      → SameDecision ss.arm ((run cs ss).arm)
  run-SameDecision [] ss sound over = (refl, refl, refl)
  run-SameDecision (c ∷ cs) ss sound over =
      let same = step-SameDecision c ss (sound.0) over in
      trans_decision ss.arm ((step c ss).arm) ((run cs (step c ss)).arm) same
        (run-SameDecision cs (step c ss) (step-Sound c ss sound) (ap is_over (same.0) ∙ over))
