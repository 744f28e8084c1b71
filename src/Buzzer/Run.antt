-- ===== src/Buzzer/Run.antt =====
-- internal/buzzer/arm.go: the calls that the room makes on an arm, as a sequence of steps.
pub mod Scored
pub mod Audit
pub mod Effect
pub mod Lookup
pub mod Sound
pub mod Start
pub mod Over
use sigame_server.Prelude.{Bool, List, String, [], ℤ, ◌∷◌}
use sigame_server.Pack.{Float64}
use sigame_server.Buzzer.Floats.{Floats}
use sigame_server.Buzzer.Arm.{Arm, PressIn, Session}
use sigame_server.Buzzer.Collect.{on_arm_ack, on_misfire, on_press, on_sent, set_eligible}
use sigame_server.Buzzer.Decide.{disarm, force_resolve, resolve, set_rotate_after}

-- One call of a method that changes the arm, with its time.
pub data Call : Type 0 where
  press : PressIn → Float64 → Call
  sent : String → Float64 → Call
  ack : String → Float64 → Call
  eligible : String → Bool → Float64 → Call
  misfire : String → Float64 → Call
  rotate : ℤ → Call
  resolve_now force_now : Float64 → Call
  disarm_now : Float64 → String → Call

module _ ⦃fl : Floats⦄ where
  abbrev pub on_arm : (Arm → Arm) → Session → Session
  on_arm f ss = record ss { arm = f ss.arm }

  unfoldable pub step : Call → Session → Session
  unfolding on_press on_sent on_arm_ack set_eligible on_misfire set_rotate_after resolve
      force_resolve disarm
  step (Call.press m t) ss = (on_press m t ss).0
  step (Call.sent id t) ss = on_sent id t ss
  step (Call.ack id t) ss = on_arm_ack id t ss
  step (Call.eligible id b t) ss = set_eligible id b t ss
  step (Call.misfire id t) ss = (on_misfire id t ss).0
  step (Call.rotate seat) ss = on_arm (set_rotate_after seat) ss
  step (Call.resolve_now t) ss = on_arm (λ a. (resolve t a).0) ss
  step (Call.force_now t) ss = on_arm (force_resolve t) ss
  step (Call.disarm_now t reason) ss = on_arm (disarm t reason) ss

  abbrev pub run : List Call → Session → Session
  run [] ss = ss
  run (c ∷ cs) ss = run cs (step c ss)
