-- ===== src/Buzzer/Run/Sound.antt =====
-- internal/buzzer/arm.go: what holds of an arm after any sequence of calls.
use sigame_server.Prelude.{
  All, All-append, All-map, Bool, Bool-cases, List, Option, String, [], ap, arith, elem, false,
  if◌then◌else◌, inl, inr, none, refl, some, string_eq, subst, sym, true, ◌++◌, ◌==◌, ◌∙◌, ◌∷◌, ◌≡◌,
  ◌⊎◌,
}
use sigame_server.Buzzer.Floats.{Floats, ◌≺◌}
use sigame_server.Buzzer.Arm.{
  Arm, ArmPlayer, ArmState, Press, Result, Session, player_of, with_player,
}
use sigame_server.Buzzer.Decide.{
  disarm, force_resolve, is_over, pids, resolve, resolve_at, resolve_by, set_rotate_after,
}
use sigame_server.Buzzer.Run.Effect.{Countable, Effect, Indexed, Named, on_press-Effect}
use sigame_server.Buzzer.Run.Lookup.{Seen-keeps, mapped, player_of-with_player, with_player-Seen}
use sigame_server.Buzzer.Collect.{
  ack_by, eligible_by, mark_pressed, misfire_by, on_arm_ack, on_misfire, on_sent, record_press,
  reschedule, rescheduled, set_eligible,
}
use sigame_server.Pack.{Float64}
use sigame_server.Buzzer.Run.{Call, step}

abbrev pub has_pressed : Option ArmPlayer → Bool
has_pressed none = false
has_pressed (some ap) = ap.pressed

abbrev pub Distinct : List String → Type 0
Distinct [] = Unit
Distinct (x ∷ xs) = (elem x xs ≡ false) × Distinct xs

-- Each player whose press counts is marked as having pressed.
abbrev pub Marked : Arm → List Press → Type 0
Marked a = All (λ pr. has_pressed (player_of pr.pid a) ≡ true)

module _ ⦃fl : Floats⦄ where
  -- Players are found under their names; the presses that count belong to different players, who
  -- are marked, and each of them was in time and, in the anchored modes, not faster than a human.
  abbrev pub Sound : Arm → Type 0
  Sound a = Indexed a × Marked a a.presses × Distinct (pids a.presses) × All (Countable a) a.presses

  -- A change of the players that keeps names and marks, and of what `Sound` does not read.
  abbrev pub Keeps : Arm → Arm → Type 0
  Keeps a b =
      (id : String)
      → (Named id (player_of id a) → Named id (player_of id b))
        × (has_pressed (player_of id a) ≡ true → has_pressed (player_of id b) ≡ true)

  -- A write that changes neither the name nor takes the mark away.
  abbrev pub Harmless : (ArmPlayer → ArmPlayer) → Type 0
  Harmless f = (p : ArmPlayer) → ((f p).id ≡ p.id) × (p.pressed ≡ true → (f p).pressed ≡ true)

  mapped-Named :
      (f : ArmPlayer → ArmPlayer)
      → Harmless f
      → (id : String) (o : Option ArmPlayer) → Named id o
      → Named id (mapped f o)
  mapped-Named f h id none k = tt
  mapped-Named f h id (some p) k = (h p).0 ∙ k

  mapped-pressed :
      (f : ArmPlayer → ArmPlayer)
      → Harmless f
      → (o : Option ArmPlayer) → has_pressed o ≡ true
      → has_pressed (mapped f o) ≡ true
  mapped-pressed f h none k = k
  mapped-pressed f h (some p) k = (h p).1 k

  with_player-Keeps :
      (f : ArmPlayer → ArmPlayer) (j : String) (a : Arm) → Harmless f → Keeps a (with_player j f a)
  with_player-Keeps f j a h id = (
    Seen-keeps f (Named id) (mapped-Named f h id) _ _ (with_player-Seen f id j a),
    Seen-keeps f (λ o. has_pressed o ≡ true) (mapped-pressed f h) _ _ (with_player-Seen f id j a),
  )

  Keeps-Marked : (a b : Arm) → Keeps a b → (prs : List Press) → Marked a prs → Marked b prs
  Keeps-Marked a b h prs k = All-map _ _ (λ pr p. (h pr.pid).1 p) prs k

  -- A press of a player without a mark is not among the presses of marked players.
  fresh_pid :
      (a : Arm) (id : String) (prs : List Press)
      → has_pressed (player_of id a) ≡ false
      → Marked a prs
      → elem id (pids prs) ≡ false
  fresh_pid a id [] h k = refl
  fresh_pid a id (pr ∷ prs) h k =
      ground (arith, fresh_pid a id prs h (k.1), other_name (Bool-cases (pr.pid == id)))
    where
      never : true ≡ false → (pr.pid == id) ≡ false
      never q = ground arith

      other_name : ((pr.pid == id) ≡ true) ⊎ ((pr.pid == id) ≡ false) → (pr.pid == id) ≡ false
      other_name (inl p) = never (
          sym (k.0)
          ∙ ap (λ n. has_pressed (player_of n a)) ((string_eq.same_iff pr.pid id).0 p)
          ∙ h)
      other_name (inr p) = p

  differ : (x y : String) → (x == y) ≡ false → (y == x) ≡ false
  differ x y h = ground (arith, string_eq.same_iff x y, string_eq.same_iff y x)

  elem-append :
      (x y : String) (xs : List String)
      → elem x xs ≡ false
      → (y == x) ≡ false
      → elem x (xs ++ y ∷ []) ≡ false
  elem-append x y [] h k = ground (arith, k)
  elem-append x y (z ∷ xs) h k = ground (arith, k, h, elem-append x y xs)

  Distinct-append :
      (xs : List String) (y : String) → Distinct xs → elem y xs ≡ false → Distinct (xs ++ y ∷ [])
  Distinct-append [] y h k = (refl, tt)
  Distinct-append (x ∷ xs) y h k = (
    elem-append x y xs (h.0) (differ x y (ground (arith, k))),
    Distinct-append xs y (h.1) (ground (arith, k)),
  )

  pids-append : (prs : List Press) (pr : Press) → pids (prs ++ pr ∷ []) ≡ pids prs ++ pr.pid ∷ []
  pids-append [] pr = refl
  pids-append (p ∷ prs) pr = ap (λ xs. p.pid ∷ xs) (pids-append prs pr)

  marks : ArmPlayer → ArmPlayer
  marks p = record p { pressed = true }

  marks-Harmless : Harmless marks
  unfolding marks
  marks-Harmless p = (refl, λ h. refl)

  marked_now :
      (pr : Press) (a : Arm) (who : ArmPlayer)
      → player_of pr.pid a ≡ some who
      → has_pressed (player_of pr.pid (with_player pr.pid marks a)) ≡ true
  unfolding marks
  marked_now pr a who h =
      ap has_pressed (player_of-with_player marks pr.pid a)
      ∙ ap (λ o. has_pressed (mapped marks o)) h

  -- A counted press joins the others.
  counted-Sound :
      (a : Arm) (pr : Press) (who : ArmPlayer)
      → player_of pr.pid a ≡ some who
      → who.pressed ≡ false
      → Countable a pr
      → Sound a
      → Indexed (with_player pr.pid marks a)
        × Marked (with_player pr.pid marks a) (a.presses ++ pr ∷ [])
        × Distinct (pids (a.presses ++ pr ∷ []))
        × All (Countable a) (a.presses ++ pr ∷ [])
  counted-Sound a pr who h fresh good sound =
      let keeps = with_player-Keeps marks pr.pid a marks-Harmless in
      (
        λ id. (keeps id).0 (sound.0 id),
        All-append _ a.presses (pr ∷ [])
            (Keeps-Marked a (with_player pr.pid marks a) keeps a.presses (sound.1))
            (marked_now pr a who h, tt),
        subst Distinct (sym (pids-append a.presses pr)) (
            Distinct-append (pids a.presses) pr.pid (sound.2)
              (fresh_pid a pr.pid a.presses (ap has_pressed h ∙ fresh) (sound.1))),
        All-append _ a.presses (pr ∷ []) (sound.3) (good, tt),
      )

  Keeps-Sound :
      (f : ArmPlayer → ArmPlayer) (j : String) (a : Arm)
      → Harmless f
      → Sound a
      → Indexed (with_player j f a) × Marked (with_player j f a) a.presses
  Keeps-Sound f j a h sound =
      let keeps = with_player-Keeps f j a h in
      (
        λ id. (keeps id).0 (sound.0 id),
        Keeps-Marked a (with_player j f a) keeps a.presses (sound.1),
      )

  Effect-Sound : (a b : Arm) → Sound a → Effect a b → Sound b
  unfolding record_press mark_pressed with_player player_of marks
  Effect-Sound a b sound Effect.same = sound
  Effect-Sound a b sound (Effect.refused pr st h) = sound
  Effect-Sound a b sound (Effect.after id pr st h) =
      let kept = Keeps-Sound marks id a marks-Harmless sound in (kept.0, kept.1, sound.2, sound.3)
  Effect-Sound a b sound (Effect.counted pr close who h found fresh good) =
      counted-Sound a pr who found fresh good sound

  reschedule-Sound : (t : Float64) (ss : Session) → Sound ss.arm → Sound ((reschedule t ss).arm)
  unfolding reschedule player_of
  reschedule-Sound t ss sound = sound

  rescheduled-Sound :
      (st : ArmState) (t : Float64) (ss : Session)
      → Sound ss.arm
      → Sound ((rescheduled st t ss).arm)
  rescheduled-Sound ArmState.collecting t ss sound = reschedule-Sound t ss sound
  rescheduled-Sound ArmState.armed t ss sound = sound
  rescheduled-Sound ArmState.draining t ss sound = sound
  rescheduled-Sound ArmState.resolved t ss sound = sound
  rescheduled-Sound ArmState.disarmed t ss sound = sound

  with_player-Sound :
      (f : ArmPlayer → ArmPlayer) (j : String) (a : Arm)
      → Harmless f
      → Sound a
      → Sound (with_player j f a)
  unfolding with_player player_of
  with_player-Sound f j a h sound =
      let kept = Keeps-Sound f j a h sound in (kept.0, kept.1, sound.2, sound.3)

  eligible_by-Sound :
      (o : Option ArmPlayer) (id : String) (b : Bool) (t : Float64) (ss : Session)
      → Sound ss.arm
      → Sound ((eligible_by o id b t ss).arm)
  eligible_by-Sound none id b t ss sound = sound
  eligible_by-Sound (some who) id b t ss sound =
      rescheduled-Sound ss.arm.state t _
        (with_player-Sound (λ p. record p { eligible = b }) id ss.arm (λ p. (refl, λ h. h)) sound)

  if-Sound :
      (b : Bool) (x y : Session) → Sound x.arm → Sound y.arm → Sound ((if b then x else y).arm)
  if-Sound true x y h k = h
  if-Sound false x y h k = k

  ack_by-Sound :
      (o : Option ArmPlayer) (id : String) (t : Float64) (ss : Session)
      → Sound ss.arm
      → Sound ((ack_by o id t ss).arm)
  unfolding ack_by
  ack_by-Sound none id t ss sound = sound
  ack_by-Sound (some who) id t ss sound =
      if-Sound who.acked _ _ sound (with_player-Sound _ id ss.arm (λ p. (refl, λ h. h)) sound)

  misfire_by-Sound :
      (o : Option ArmPlayer) (t : Float64) (ss : Session)
      → Sound ss.arm
      → Sound ((misfire_by o t ss).0.arm)
  unfolding misfire_by
  misfire_by-Sound none t ss sound = sound
  misfire_by-Sound (some who) t ss sound = sound

  -- The decision touches the state and the result only.
  decided-Sound :
      (a : Arm) (st : ArmState) (r : Result) → Sound a → Sound (record a { state = st; result = r })
  unfolding player_of
  decided-Sound a st r sound = sound

  if_arm-Sound : (b : Bool) (x y : Arm) → Sound x → Sound y → Sound (if b then x else y)
  if_arm-Sound true x y h k = h
  if_arm-Sound false x y h k = k

  force_resolve-Sound : (t : Float64) (a : Arm) → Sound a → Sound (force_resolve t a)
  unfolding force_resolve
  force_resolve-Sound t a sound =
      if_arm-Sound (is_over a.state) a _ sound (decided-Sound a ArmState.resolved _ sound)

  disarm-Sound : (t : Float64) (why : String) (a : Arm) → Sound a → Sound (disarm t why a)
  unfolding disarm
  disarm-Sound t why a sound =
      if_arm-Sound (is_over a.state) a _ sound (decided-Sound a ArmState.disarmed _ sound)

  if_due-Sound :
      (b : Bool) (x y : Arm × Bool) → Sound (x.0) → Sound (y.0) → Sound ((if b then x else y).0)
  if_due-Sound true x y h k = h
  if_due-Sound false x y h k = k

  resolve_at-Sound : (d t : Float64) (a : Arm) → Sound a → Sound ((resolve_at d t a).0)
  unfolding resolve_at
  resolve_at-Sound d t a sound = if_due-Sound (t ≺ d) _ _ sound (force_resolve-Sound t a sound)

  resolve_by-Sound :
      (st : ArmState) (t : Float64) (a : Arm) → Sound a → Sound ((resolve_by st t a).0)
  unfolding player_of
  resolve_by-Sound ArmState.resolved t a sound = sound
  resolve_by-Sound ArmState.disarmed t a sound = sound
  resolve_by-Sound ArmState.armed t a sound =
      if_due-Sound (t ≺ a.disarm_at) _ _ sound (resolve_at-Sound a.drain_end t _ sound)
  resolve_by-Sound ArmState.draining t a sound = resolve_at-Sound a.drain_end t a sound
  resolve_by-Sound ArmState.collecting t a sound = resolve_at-Sound a.close_at t a sound

  pub step-Sound : (c : Call) (ss : Session) → Sound ss.arm → Sound ((step c ss).arm)
  unfolding step on_sent on_arm_ack set_eligible on_misfire set_rotate_after resolve player_of
  step-Sound (Call.press m t) ss sound =
      Effect-Sound ss.arm _ sound (on_press-Effect m t ss (sound.0))
  step-Sound (Call.sent id t) ss sound = with_player-Sound _ id ss.arm (λ p. (refl, λ h. h)) sound
  step-Sound (Call.ack id t) ss sound = ack_by-Sound _ id t ss sound
  step-Sound (Call.eligible id b t) ss sound = eligible_by-Sound _ id b t ss sound
  step-Sound (Call.misfire id t) ss sound = misfire_by-Sound _ t ss sound
  step-Sound (Call.rotate seat) ss sound = sound
  step-Sound (Call.resolve_now t) ss sound = resolve_by-Sound ss.arm.state t ss.arm sound
  step-Sound (Call.force_now t) ss sound = force_resolve-Sound t ss.arm sound
  step-Sound (Call.disarm_now t why) ss sound = disarm-Sound t why ss.arm sound
