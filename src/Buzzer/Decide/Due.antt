-- ===== src/Buzzer/Decide/Due.antt =====
-- internal/buzzer/arm.go: the room that calls `Resolve` at each announced deadline gets a decision.
use sigame_server.Prelude.{
  Bool, Option, ap, arith, false, if◌then◌else◌, inl, inr, map, none, refl, some, subst, suc, sym,
  true, zero, ℕ, ◌≡◌, ◌⊎◌,
}
use sigame_server.Pack.{Float64}
use sigame_server.Buzzer.Floats.{Floats, lit, ◌≺◌, ◌⊖◌}
use sigame_server.Buzzer.Arm.{Arm, ArmState}
use sigame_server.Buzzer.Decide.{
  blank_result, conclude, deadline_in, force_resolve, is_over, next_deadline, rank, ranked, resolve,
  resolve_at, resolve_by,
}

module _ ⦃fl : Floats⦄ where
  -- A call of `Resolve` at a deadline, if there is one.
  unfoldable pub attempt : Option Float64 → Arm → Arm
  unfolding resolve
  attempt none a = a
  attempt (some deadline) a = (resolve deadline a).0

  -- The room calls `Resolve` n times, each time at the deadline that the arm announces.
  unfoldable pub drive : ℕ → Arm → Arm
  unfolding attempt next_deadline
  drive zero a = a
  drive (suc n) a = drive n (attempt (next_deadline a) a)

  force_resolve-over : (t : Float64) (a : Arm) → is_over ((force_resolve t a).state) ≡ true
  unfolding force_resolve
  force_resolve-over t a = by_state (is_over a.state) refl
    where
      never : {P : Type 0} → true ≡ false → P
      never p = ground arith

      by_state :
          (b : Bool)
          → is_over a.state ≡ b
          → is_over (
              (if b then a else record a {
                state = ArmState.resolved;
                result = conclude a (ranked a) (record (blank_result a t) {
                  collect = if a.has_first then t ⊖ a.first_recv else lit 0;
                  ranking = map rank (ranked a);
                });
              }).state)
            ≡ true
      by_state true h = h
      by_state false h = refl

  never : {P : Type 0} → true ≡ false → P
  never p = ground arith

  abbrev state_after : Arm × Bool → ArmState
  state_after r = r.0.state

  resolve_at-over :
      (d t : Float64) (a : Arm) → (t ≺ d) ≡ false → is_over (((resolve_at d t a).0).state) ≡ true
  unfolding resolve_at
  resolve_at-over d t a h = by_test (t ≺ d) h
    where
      by_test :
          (b : Bool)
          → b ≡ false
          → is_over (state_after (if b then (a, false) else (force_resolve t a, true))) ≡ true
      by_test true p = never p
      by_test false p = force_resolve-over t a

  -- A deadline has come: the button is decided, or the arm waits for the last presses.
  Drained : ArmState → Type 0
  Drained st = (is_over st ≡ true) ⊎ (st ≡ ArmState.draining)

  first_attempt :
      (b : Bool) (d : Float64) (a : Arm)
      → b ≡ false
      → Drained (
          state_after (
            if b
            then (a, false)
            else resolve_at a.drain_end d (record a { state = ArmState.draining })))
  unfolding Drained resolve_at
  first_attempt true d a h = never h
  first_attempt false d a h = by_test (d ≺ a.drain_end)
    where
      by_test :
          (b : Bool)
          → Drained (
              state_after (
                if b
                then (record a { state = ArmState.draining }, false)
                else (force_resolve d (record a { state = ArmState.draining }), true)))
      by_test true = inr refl
      by_test false = inl (force_resolve-over d (record a { state = ArmState.draining }))

  -- The same call, with the state named.
  attempt_in : ArmState → Option Float64 → Arm → Arm
  attempt_in st none a = a
  attempt_in st (some d) a = (resolve_by st d a).0

  attempt-in : (o : Option Float64) (a : Arm) → attempt o a ≡ attempt_in a.state o a
  unfolding attempt attempt_in
  attempt-in none a = refl
  attempt-in (some d) a = refl

  attempt_in-Drained :
      (st : ArmState) (a : Arm)
      → a.state ≡ st
      → ((x : Float64) → (x ≺ x) ≡ false)
      → Drained ((attempt_in st (deadline_in st a) a).state)
  unfolding attempt_in Drained
  attempt_in-Drained ArmState.armed a h irreflexive =
      first_attempt (a.disarm_at ≺ a.disarm_at) a.disarm_at a (irreflexive a.disarm_at)
  attempt_in-Drained ArmState.collecting a h irreflexive =
      inl (resolve_at-over a.close_at a.close_at a (irreflexive a.close_at))
  attempt_in-Drained ArmState.draining a h irreflexive =
      inl (resolve_at-over a.drain_end a.drain_end a (irreflexive a.drain_end))
  attempt_in-Drained ArmState.resolved a h irreflexive = inl (ap is_over h)
  attempt_in-Drained ArmState.disarmed a h irreflexive = inl (ap is_over h)

  attempt_in-over :
      (st : ArmState) (a : Arm)
      → a.state ≡ st
      → Drained st
      → ((x : Float64) → (x ≺ x) ≡ false)
      → is_over ((attempt_in st (deadline_in st a) a).state) ≡ true
  unfolding attempt_in Drained
  attempt_in-over ArmState.armed a h (inl p) irreflexive = never (sym p)
  attempt_in-over ArmState.armed a h (inr p) irreflexive = ground arith
  attempt_in-over ArmState.collecting a h d irreflexive =
      resolve_at-over a.close_at a.close_at a (irreflexive a.close_at)
  attempt_in-over ArmState.draining a h d irreflexive =
      resolve_at-over a.drain_end a.drain_end a (irreflexive a.drain_end)
  attempt_in-over ArmState.resolved a h d irreflexive = ap is_over h
  attempt_in-over ArmState.disarmed a h d irreflexive = ap is_over h

  poke : Arm → Arm
  poke a = attempt (next_deadline a) a

  poke-Drained : (a : Arm) → ((x : Float64) → (x ≺ x) ≡ false) → Drained ((poke a).state)
  unfolding poke next_deadline
  poke-Drained a irreflexive =
      subst (λ b. Drained b.state) (sym (attempt-in (deadline_in a.state a) a))
        (attempt_in-Drained a.state a refl irreflexive)

  poke-over :
      (a : Arm)
      → Drained a.state
      → ((x : Float64) → (x ≺ x) ≡ false)
      → is_over ((poke a).state) ≡ true
  unfolding poke next_deadline
  poke-over a d irreflexive =
      subst (λ b. is_over b.state ≡ true) (sym (attempt-in (deadline_in a.state a) a))
        (attempt_in-over a.state a refl d irreflexive)

  -- When no time is before itself, two calls of `Resolve`, each at the deadline that the arm
  -- announces then, decide the button from any state.
  pub drive-over :
      (a : Arm) → ((x : Float64) → (x ≺ x) ≡ false) → is_over ((drive 2 a).state) ≡ true
  unfolding drive poke
  drive-over a irreflexive = poke-over (poke a) (poke-Drained a irreflexive) irreflexive
