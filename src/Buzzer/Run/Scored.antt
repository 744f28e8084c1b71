-- ===== src/Buzzer/Run/Scored.antt =====
-- internal/buzzer/arm.go: what the score of a press says of the press.
use sigame_server.Prelude.{
  Bool, Option, String, ap, arith, false, if◌then◌else◌, none, refl, some, subst, sym, true, ◌&&◌,
  ◌∙◌, ◌≡◌,
}
use sigame_server.Pack.{Float64}
use sigame_server.Buzzer.Floats.{Floats, ◌≺◌}
use sigame_server.Buzzer.Settings.{Mode, Settings}
use sigame_server.Buzzer.Arm.{Arm, ArmMode, ArmPlayer, Press, PressAck, PressIn, Status, Store}
use sigame_server.Buzzer.Press.{
  accept_anchored, accept_plain, begin_anchored, clamp_to, conclude_anchored, estimate, estimate_by,
  flag_bias, flag_early, is_too_early, judge_reaction, refusal_ack, refuse, score, score_anchored,
  score_arrival, score_by, score_client, score_receipt, score_stamp, timed_press, widen,
}
use sigame_server.Buzzer.Collect.{is_pending}
use sigame_server.Buzzer.Conn.{TrustLevel}

abbrev pub is_fair_mode : Mode → Bool
is_fair_mode Mode.server_arrival = false
is_fair_mode Mode.random_window = false
is_fair_mode Mode.client_reaction = false
is_fair_mode _ = true

module _ ⦃fl : Floats⦄ where
  -- In the anchored modes, the reaction of the press is not below the human floor.
  abbrev pub Human : Settings → Press → Type 0
  Human s pr = (is_fair_mode s.mode && pr.reaction ≺ fl.of_int s.min_human) ≡ false

  -- The press is the player's, and a pending one is human.
  abbrev pub Scored : Settings → String → Store × Press × PressAck → Type 0
  Scored s id (conns, pr, ack) = (pr.pid ≡ id) × (is_pending ack.status ≡ true → Human s pr)

  flag_early-pid : (b : Bool) (o : Option Float64) (pr : Press) → (flag_early b o pr).pid ≡ pr.pid
  flag_early-pid true (some u) pr = refl
  flag_early-pid true none pr = refl
  flag_early-pid false (some u) pr = refl
  flag_early-pid false none pr = refl

  refusal_ack-pending :
      (st : Status) (x : Float64) (o : Option Float64)
      → is_pending st ≡ false
      → is_pending ((refusal_ack st x o).status) ≡ false
  refusal_ack-pending st x none h = h
  refusal_ack-pending st x (some u) h = h

  -- A refused press is not pending.
  refuse-Scored :
      (s : Settings) (a : Arm) (t : Float64) (pr : Press) (st : Status) (conns : Store)
      → is_pending st ≡ false
      → Scored s pr.pid (refuse a t pr st conns)
  unfolding refuse
  refuse-Scored s a t pr st conns h = (
    flag_early-pid (is_too_early st) _ pr,
    λ p. never (sym p ∙ refusal_ack-pending st pr.reaction _ h),
  )
    where
      never : {P : Type 0} → true ≡ false → P
      never p = ground arith

  judged :
      (a : Arm) (pr : Press) (x : Float64)
      → judge_reaction a pr x ≡ none
      → (x ≺ fl.of_int a.s.min_human) ≡ false
  judged a pr x h = ground arith

  judge-Refusal :
      (a : Arm) (pr : Press) (x : Float64) (st : Status)
      → judge_reaction a pr x ≡ some st
      → is_pending st ≡ false
  judge-Refusal a pr x st h = ground arith

  clamp_to-pid : (b : Bool) (x : Float64) (pr : Press) → (clamp_to b x pr).pid ≡ pr.pid
  clamp_to-pid true x pr = refl
  clamp_to-pid false x pr = refl

  flag_bias-pid : (b : Bool) (pr : Press) → (flag_bias b pr).pid ≡ pr.pid
  flag_bias-pid true pr = refl
  flag_bias-pid false pr = refl

  widen-pid : (l : TrustLevel) (pr : Press) → (widen l pr).pid ≡ pr.pid
  widen-pid TrustLevel.full pr = refl
  widen-pid TrustLevel.conservative pr = refl
  widen-pid TrustLevel.server_only pr = refl
  widen-pid TrustLevel.arrival_only pr = refl

  score_stamp-pid :
      (m : PressIn) (t : Float64) (pr : Press) (conns : Store)
      → ((score_stamp m t pr conns).1).pid ≡ pr.pid
  unfolding score_stamp
  score_stamp-pid m t pr conns = widen-pid pr.ap.level _ ∙ flag_bias-pid _ _ ∙ clamp_to-pid _ _ _

  estimate_by-pid :
      (l : TrustLevel) (mode : ArmMode) (a : Arm) (m : PressIn) (t : Float64) (pr : Press)
      (conns : Store)
      → ((estimate_by l mode a m t pr conns).1).pid ≡ pr.pid
  unfolding score_receipt
  estimate_by-pid TrustLevel.arrival_only mode a m t pr conns = refl
  estimate_by-pid TrustLevel.full ArmMode.on_receipt a m t pr conns = refl
  estimate_by-pid TrustLevel.conservative ArmMode.on_receipt a m t pr conns = refl
  estimate_by-pid TrustLevel.server_only ArmMode.on_receipt a m t pr conns = refl
  estimate_by-pid TrustLevel.server_only ArmMode.scheduled a m t pr conns = refl
  estimate_by-pid TrustLevel.full ArmMode.scheduled a m t pr conns = score_stamp-pid m t pr conns
  estimate_by-pid TrustLevel.conservative ArmMode.scheduled a m t pr conns =
      score_stamp-pid m t pr conns

  conclude-Scored :
      (a : Arm) (t : Float64) (blank : Press) (conns : Store) (pr : Press) (v : Option Status)
      → judge_reaction a pr pr.reaction ≡ v
      → pr.pid ≡ blank.pid
      → Scored a.s blank.pid (conclude_anchored a t blank conns pr v)
  unfolding conclude_anchored accept_anchored
  conclude-Scored a t blank conns pr (some st) h k =
      refuse-Scored a.s a t blank st conns (judge-Refusal a pr pr.reaction st h)
  conclude-Scored a t blank conns pr none h k =
      (k, λ p. both (is_fair_mode a.s.mode) (judged a pr pr.reaction h))
    where
      both : (b : Bool) {c : Bool} → c ≡ false → (b && c) ≡ false
      both true q = q
      both false q = refl

  begin-Scored :
      (a : Arm) (m : PressIn) (t : Float64) (blank : Press) (conns : Store) (x : Float64)
      (v : Option Status)
      → judge_reaction a blank x ≡ v
      → Scored a.s blank.pid (begin_anchored a m t blank conns v)
  unfolding begin_anchored timed_press
  begin-Scored a m t blank conns x (some st) h =
      refuse-Scored a.s a t blank st conns (judge-Refusal a blank x st h)
  begin-Scored a m t blank conns x none h =
      conclude-Scored a t blank _ _ _ refl
        (estimate_by-pid blank.ap.level blank.ap.mode a m t _ conns)

  plain-Scored :
      (s : Settings) (b : Bool) (a : Arm) (t : Float64) (x y : Press) (conns : Store)
      → is_fair_mode s.mode ≡ false
      → x.pid ≡ y.pid
      → Scored s y.pid (if b then refuse a t x Status.false_start conns else accept_plain y conns)
  plain-Scored s true a t x y conns h k =
      subst (λ id. Scored s id (refuse a t x Status.false_start conns)) k
        (refuse-Scored s a t x Status.false_start conns refl)
  plain-Scored s false a t x y conns h k =
      (refl, λ p. ap (λ b. b && y.reaction ≺ fl.of_int s.min_human) h)

  score_by-Scored :
      (mode : Mode) (a : Arm) (who : ArmPlayer) (m : PressIn) (t : Float64) (conns : Store)
      → a.s.mode ≡ mode
      → Scored a.s who.id (score_by mode a who m t conns)
  unfolding score_by score_anchored estimate score_arrival score_client
  score_by-Scored Mode.server_arrival a who m t conns h =
      plain-Scored a.s _ a t _ _ conns (ap is_fair_mode h) refl
  score_by-Scored Mode.random_window a who m t conns h =
      plain-Scored a.s _ a t _ _ conns (ap is_fair_mode h) refl
  score_by-Scored Mode.client_reaction a who m t conns h =
      plain-Scored a.s _ a t _ _ conns (ap is_fair_mode h) refl
  score_by-Scored Mode.anchored_hybrid a who m t conns h = begin-Scored a m t _ conns _ _ refl
  score_by-Scored Mode.written_all a who m t conns h = begin-Scored a m t _ conns _ _ refl
  score_by-Scored Mode.unknown a who m t conns h = begin-Scored a m t _ conns _ _ refl

  pub score-Scored :
      (a : Arm) (who : ArmPlayer) (m : PressIn) (t : Float64) (conns : Store)
      → Scored a.s who.id (score a who m t conns)
  unfolding score
  score-Scored a who m t conns = score_by-Scored a.s.mode a who m t conns refl
