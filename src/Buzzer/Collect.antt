-- ===== src/Buzzer/Collect.antt =====
-- internal/buzzer/arm.go: the messages of the players and the window in which presses are collected.
use sigame_server.Prelude.{
  Bool, List, Option, String, [], ap, false, if◌then◌else◌, keep, map, none, not, some, string_eq,
  true, ◌&&◌, ◌++◌, ◌==◌, ◌||◌, ◌∷◌,
}
use sigame_server.Pack.{Float64}
use sigame_server.Buzzer.Floats.{Floats, lit, ◌≺◌, ◌⊕◌, ◌⊖◌, ◌⊘◌}
use sigame_server.Buzzer.Settings.{Mode, Settings, TieMode}
use sigame_server.Buzzer.Constants.{eps_input, wait_per_player_max}
use sigame_server.Buzzer.Conn.{Conn}
use sigame_server.Buzzer.Trust.{note_ack, note_press, soft_flag}
use sigame_server.Buzzer.Arm.{
  Arm, ArmPlayer, ArmState, Press, PressAck, PressIn, ResultKind, Session, Status, Store, conn_at,
  on_conn, player_of, recompute_credit, with_player,
}
use sigame_server.Buzzer.Press.{ack_of, ask_conn, lock, score}

module _ ⦃fl : Floats⦄ where
  abbrev pub locked_after : Float64 → Option Conn → Bool
  locked_after now none = false
  locked_after now (some c) = now ≺ c.locked_until

  -- A player who may still press.
  abbrev pub may_press : Float64 → Store → ArmPlayer → Bool
  may_press now conns p =
      not p.pressed && p.eligible && not (locked_after now (conn_at p.conn conns))

  abbrev pub longest_wait : Float64 → List ArmPlayer → Float64
  longest_wait acc [] = acc
  longest_wait acc (p ∷ ps) =
      let w = fl.min (p.m.model.rtt_ref ⊘ lit 2 ⊕ p.m.model.tol) wait_per_player_max in
      longest_wait (if acc ≺ w then w else acc) ps

  abbrev pub tie_reach : Settings → Float64
  tie_reach s = go s.tie_mode
    where
      go : TieMode → Float64
      go TieMode.uncertainty = fl.of_int s.tie_max
      go _ = fl.of_int s.tie_ms

  abbrev pub collect_deadline : Arm → Float64 → Float64
  collect_deadline a wait_for = go a.s.mode
    where
      go : Mode → Float64
      go Mode.server_arrival = a.first_recv
      go Mode.random_window = a.first_recv ⊕ fl.of_int a.s.random_window
      go Mode.client_reaction = a.first_recv ⊕ fl.of_int a.s.accept_window
      go _ = fl.min (a.best_t ⊕ tie_reach a.s ⊕ wait_for) (a.first_recv ⊕ fl.of_int a.s.max_collect)

  abbrev pub close_time : Float64 → Arm → List ArmPlayer → Float64
  close_time now a [] = now
  close_time now a ps = fl.min (collect_deadline a (longest_wait (lit 0) ps)) a.drain_end

  unfoldable pub reschedule : Float64 → Session → Session
  reschedule now ss = record ss {
    arm = record (ss.arm) {
      close_at = close_time now ss.arm (keep (may_press now ss.conns) ss.arm.players);
    };
  }

  abbrev pub rescheduled : ArmState → Float64 → Session → Session
  rescheduled ArmState.collecting now ss = reschedule now ss
  rescheduled _ now ss = ss

  -- An unknown player changes nothing: not even the deadline is computed again.
  abbrev pub eligible_by : Option ArmPlayer → String → Bool → Float64 → Session → Session
  eligible_by none id eligible now ss = ss
  eligible_by (some ap) id eligible now ss =
      rescheduled ss.arm.state now
        (record ss { arm = with_player id (λ p. record p { eligible = eligible }) ss.arm })

  unfoldable pub set_eligible : String → Bool → Float64 → Session → Session
  unfolding reschedule player_of with_player
  set_eligible id eligible now ss = eligible_by (player_of id ss.arm) id eligible now ss

  unfoldable pub on_sent : String → Float64 → Session → Session
  unfolding recompute_credit with_player
  on_sent id t_send ss = record ss {
    arm = with_player id (λ p. recompute_credit ss.arm.t_arm (record p { t_send = t_send })) ss.arm;
  }

  -- The first acknowledgement counts.
  unfoldable pub ack_by : Option ArmPlayer → String → Float64 → Session → Session
  unfolding note_ack with_player
  ack_by none id t_recv ss = ss
  ack_by (some ap) id t_recv ss =
      let excess = fl.max (lit 0) ((t_recv ⊖ ap.t_send) ⊖ ap.m.model.rtt_ref) in
      if ap.acked then ss else record {
        arm = with_player id (λ p. record p { acked = true; ack_excess = excess }) ss.arm;
        conns = on_conn ap.conn (note_ack excess ap.late_allow ap.m.model.sigma) ss.conns;
      }

  unfoldable pub on_arm_ack : String → Float64 → Session → Session
  unfolding player_of ack_by
  on_arm_ack id t_recv ss = ack_by (player_of id ss.arm) id t_recv ss

  unfoldable pub record_press : Press → Status → Arm → Arm
  record_press pr status a = record a {
    audit =
        a.audit
        ++ record {
          player_id = pr.pid;
          status = status;
          t_recv = pr.t_recv;
          t_arr = pr.t_arr;
          t_client = pr.t_client;
          lo = pr.lo;
          hi = pr.hi;
          credit = pr.credit;
          t_final = pr.t_final;
          reaction = pr.reaction;
          source = pr.source;
          flags = pr.flags;
          model = pr.ap.m.model;
        }
          ∷ [];
  }

  unfoldable pub mark_pressed : String → Arm → Arm
  unfolding with_player
  mark_pressed id = with_player id (λ p. record p { pressed = true })

  -- The first pending press opens the collection; the best time is kept.
  abbrev pub add_press : Press → Arm → Arm
  add_press pr a = record a {
    presses = a.presses ++ pr ∷ [];
    has_first = true;
    first_recv = if a.has_first then a.first_recv else pr.t_recv;
    best_t = if not a.has_first || pr.t_final ≺ a.best_t then pr.t_final else a.best_t;
    state = ArmState.collecting;
  }

  abbrev pub is_pending : Status → Bool
  is_pending Status.pending = true
  is_pending _ = false

  abbrev pub is_winner : ResultKind → Bool
  is_winner ResultKind.winner = true
  is_winner _ = false

  -- One `late_beat` for each press of the winner that this one would have beaten.
  abbrev pub late_beats : Arm → Press → List String
  late_beats a pr =
      map (λ w. "late_beat")
        (keep (λ w. w.pid == a.result.winner_id && pr.t_final ≺ (w.t_final ⊖ eps_input)) a.presses)

  abbrev pub as_late : Arm → Press → Press
  as_late a pr =
      if is_winner a.result.kind then record pr { flags = pr.flags ++ late_beats a pr } else pr

  unfoldable pub settle_late : ArmPlayer → Arm → Store × Press × PressAck → Session × PressAck
  unfolding record_press
  settle_late ap a (conns, pr, ack) =
      if is_pending ack.status
      then (
        record {
          arm = record_press (as_late a pr) Status.late (mark_pressed ap.id a);
          conns = conns;
        },
        record (ack_of Status.late "") { reaction = pr.reaction },
      )
      else (record { arm = record_press pr ack.status (mark_pressed ap.id a); conns = conns }, ack)

  unfoldable pub late_press : ArmPlayer → PressIn → Float64 → Session → Session × PressAck
  unfolding score soft_flag
  late_press ap m t_recv ss =
      if ap.pressed
      then (
        record ss { conns = on_conn ap.conn (soft_flag "duplicate") ss.conns },
        ack_of Status.duplicate "",
      )
      else settle_late ap ss.arm (score ss.arm ap m t_recv ss.conns)

  -- A scored press of an open arm.
  unfoldable pub settle_press :
      ArmPlayer → Float64 → Arm → Store × Press × PressAck → Session × PressAck
  unfolding record_press reschedule
  settle_press ap t_recv a (conns, pr, ack) =
      let too_late = a.disarm_at ≺ pr.t_final in
      if not (is_pending ack.status)
      then (record { arm = record_press pr ack.status a; conns = conns }, ack)
      else if too_late
      then (
        record { arm = record_press pr Status.late a; conns = conns },
        record (ack_of Status.late "afterDisarm") { reaction = pr.reaction },
      )
      else (
        reschedule t_recv (record {
          arm = add_press pr (mark_pressed ap.id (record_press pr Status.pending a));
          conns = conns;
        }),
        ack,
      )

  abbrev pub lockout_end : Float64 → Option Conn → Option Float64
  lockout_end now none = none
  lockout_end now (some c) = if now ≺ c.locked_until then some c.locked_until else none

  unfoldable pub open_press : ArmPlayer → PressIn → Float64 → Session → Session × PressAck
  unfolding score soft_flag
  open_press ap m t_recv ss =
      if ap.pressed
      then (
        record ss { conns = on_conn ap.conn (soft_flag "duplicate") ss.conns },
        ack_of Status.duplicate "",
      )
      else elim (lockout_end t_recv (conn_at ap.conn ss.conns)) [
        | some until ↦ (ss, record (ack_of Status.locked_out "") { lockout_until = until })
        | none ↦ settle_press ap t_recv ss.arm (score ss.arm ap m t_recv ss.conns)
      ]

  -- A press within the rate limit, by the state of the arm.
  unfoldable pub press_in : ArmState → ArmPlayer → PressIn → Float64 → Session → Session × PressAck
  unfolding late_press soft_flag
  press_in ArmState.disarmed ap m t_recv ss = (
    record ss { conns = on_conn ap.conn (soft_flag "stale") ss.conns },
    ack_of Status.stale "disarmed",
  )
  press_in ArmState.resolved ap m t_recv ss = late_press ap m t_recv ss
  press_in _ ap m t_recv ss = open_press ap m t_recv ss

  -- Behind the rate limit.
  abbrev pub rate_checked : Bool → ArmPlayer → PressIn → Float64 → Session → Session × PressAck
  rate_checked true ap m t_recv ss = press_in ss.arm.state ap m t_recv ss
  rate_checked false ap m t_recv ss = (ss, ack_of Status.rejected "rateLimit")

  unfoldable pub on_press_of : Option ArmPlayer → PressIn → Float64 → Session → Session × PressAck
  unfolding ask_conn note_press press_in
  on_press_of none m t_recv ss = (ss, ack_of Status.stale "notEligible")
  on_press_of (some ap) m t_recv ss =
      let noted = ask_conn ap.conn (note_press t_recv) true ss.conns in
      if not ap.eligible
      then (ss, ack_of Status.stale "notEligible")
      else rate_checked (noted.1) ap m t_recv (record ss { conns = noted.0 })

  unfoldable pub on_press : PressIn → Float64 → Session → Session × PressAck
  unfolding player_of
  on_press m t_recv ss = on_press_of (player_of m.player_id ss.arm) m t_recv ss

  unfoldable pub misfire_by : Option ArmPlayer → Float64 → Session → Session × Float64
  unfolding ask_conn
  misfire_by none now ss = (ss, lit 0)
  misfire_by (some ap) now ss =
      let locked =
        ask_conn ap.conn (λ c. let d = lock ss.arm now c in (d, d.locked_until)) (lit 0) ss.conns in
      (record ss { conns = locked.0 }, locked.1)

  -- The end of the lockout, 0 for a player without a connection.
  unfoldable pub on_misfire : String → Float64 → Session → Session × Float64
  unfolding player_of misfire_by
  on_misfire id now ss = misfire_by (player_of id ss.arm) now ss
