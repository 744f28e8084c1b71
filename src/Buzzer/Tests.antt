-- ===== src/Buzzer/Tests.antt =====
-- The button on concrete inputs.
use sigame_server.Prelude.{
  [], arith, elem, false, int64, negsuc, none, refl, string_eq, take, true, ℕ, ◌-ℤ◌, ◌∷◌, ◌≡◌, ◌≤◌,
}
use sigame_server.Buzzer.Settings.{Mode, Settings, preset, validate}
use sigame_server.Buzzer.Settings.Ranges.{
  Accepted, Lockouts, Windows, preset-Accepted, validate-InRange,
}
use sigame_server.Buzzer.Ring.{Ring, elements, push}
use sigame_server.Buzzer.Ring.Window.{IsRing, elements-push}
use sigame_server.Buzzer.Clock.{app_min, quality_of, reference_rtt, snap, ws_anchor}
use sigame_server.Buzzer.Arm.{
  Arm, ArmPlayer, ResultKind, Session, arm_player, blank_arm, enlist_all, new_arm,
}
use sigame_server.Buzzer.Decide.{choose_by, conclude, decide, force_resolve, is_over, pids}
use sigame_server.Buzzer.Decide.Due.{drive, drive-over}
use sigame_server.Buzzer.Trust.{ladder}
use sigame_server.Buzzer.Trust.Ladder.{distrust, ladder-distrust}
use sigame_server.Buzzer.Run.Audit.{score-refused}
use sigame_server.Buzzer.Run.{run, step}
use sigame_server.Buzzer.Run.Sound.{Sound}
use sigame_server.Buzzer.Run.Start.{run-new_arm}
use sigame_server.Buzzer.Samples.{
  fresh_session, party, press_of, seat_of, three_conns, three_players, two_presses, whole,
}
use sigame_server.Buzzer.Floats.{unit_float}
use sigame_server.Buzzer.Conn.{TrustLevel, new_conn}
use sigame_server.Buzzer.Press.{begin_anchored, lock_out, note, score, score_arrival, score_by}
use sigame_server.Buzzer.Collect.{is_pending, mark_pressed, on_press_of, open_press, settle_press}
use sigame_server.Buzzer.Decide.Draw.{Draws}
use sigame_server.Buzzer.Decide.Winner.{force_resolve-Winner}
use sigame_server.Buzzer.Run.Over.{SameDecision, run-SameDecision}

party_accepted : validate party ≡ none
unfolding validate
party_accepted = refl

validate-InRange_example : Windows party × Lockouts party
validate-InRange_example = validate-InRange party party_accepted

preset-Accepted_example : Accepted (preset "tournament")
preset-Accepted_example = preset-Accepted "tournament" refl refl

abbrev small_ring : Ring ℕ
small_ring = record { buf = 7 ∷ 8 ∷ 9 ∷ []; count = 3; head = 1 }

elements-push_example :
    IsRing (push 5 small_ring) × (elements (push 5 small_ring) ≡ take 3 (5 ∷ elements small_ring))
elements-push_example = elements-push 5 small_ring (omega arith, omega arith)

ladder-distrust_example :
    (distrust (ladder true (negsuc 0)) ≤ distrust (ladder true (negsuc 2)))
    × (distrust (ladder false (negsuc 0)) ≤ distrust (ladder true (negsuc 0)))
ladder-distrust_example = ladder-distrust true (negsuc 0) (negsuc 2) (omega arith)

run-new_arm_example :
    Sound ((run two_presses (new_arm 1000 1000 three_players party "seed" three_conns)).arm)
run-new_arm_example = run-new_arm 1000 1000 three_players party "seed" three_conns two_presses

drive-over_example : is_over ((drive 2 (fresh_session.arm)).state) ≡ true
drive-over_example = drive-over fresh_session.arm (λ x. ground arith)

pressed : Arm
pressed = (run two_presses fresh_session).arm

pressed_by_bob : pids pressed.presses ≡ "bob" ∷ "ann" ∷ []
unfolding fresh_session step on_press_of enlist_all blank_arm arm_player open_press settle_press
    score_by score_arrival int64 ◌-ℤ◌ mark_pressed note pressed
pressed_by_bob = refl

pressed_open : is_over pressed.state ≡ false
unfolding fresh_session step on_press_of enlist_all blank_arm arm_player open_press settle_press
    score_by score_arrival int64 ◌-ℤ◌ mark_pressed note pressed
pressed_open = refl

pressed_seed : Draws (unit_float pressed.seed "tie")
unfolding fresh_session step on_press_of enlist_all blank_arm arm_player open_press settle_press
    score_by score_arrival int64 ◌-ℤ◌ mark_pressed note pressed unit_float
pressed_seed n h = omega (arith, h)

pressed_winner : (force_resolve 1900 pressed).result.kind ≡ ResultKind.winner
unfolding fresh_session step on_press_of enlist_all blank_arm arm_player open_press settle_press
    score_by score_arrival int64 ◌-ℤ◌ mark_pressed note pressed force_resolve conclude decide
    choose_by
pressed_winner = refl

force_resolve-Winner_example :
    elem ((force_resolve 1900 pressed).result.winner_id) (pids pressed.presses) ≡ true
force_resolve-Winner_example =
    force_resolve-Winner 1900 pressed pressed_open pressed_seed pressed_winner

-- A room without a race: the arm is over from the start.
abbrev written_party : Settings
written_party = record party { mode = Mode.written_all }

written : Session
unfolding new_arm new_conn
written = new_arm 1000 1000 three_players written_party "seed" three_conns

written-Sound : Sound written.arm
unfolding written
written-Sound = run-new_arm 1000 1000 three_players written_party "seed" three_conns []

written_over : is_over written.arm.state ≡ true
unfolding written
written_over = refl

run-SameDecision_example : SameDecision written.arm ((run two_presses written).arm)
run-SameDecision_example = run-SameDecision two_presses written written-Sound written_over

-- Ann's press a second before the light.
abbrev fair_party : Settings
fair_party = record party { mode = Mode.anchored_hybrid }

fair : Session
unfolding new_arm new_conn
fair = new_arm 1000 1000 three_players fair_party "seed" three_conns

abbrev blank_player : ArmPlayer
unfolding snap new_conn
blank_player =
    arm_player fair_party 1000 2000 (seat_of "ann" 0 0) (snap 1000 (new_conn 0)) TrustLevel.full

early_refused :
    is_pending ((score fair.arm blank_player (press_of "ann") 1100 fair.conns).2.status) ≡ false
unfolding fair score score_by enlist_all blank_arm begin_anchored blank_player arm_player
    reference_rtt ws_anchor app_min int64 ◌-ℤ◌ quality_of lock_out
early_refused = refl

score-refused_example :
    (((score fair.arm blank_player (press_of "ann") 1100 fair.conns).1).reaction ≡ 0)
    × (((score fair.arm blank_player (press_of "ann") 1100 fair.conns).1).t_arr ≡ 0)
unfolding fair enlist_all blank_arm
score-refused_example =
    score-refused fair.arm blank_player (press_of "ann") 1100 fair.conns refl early_refused
