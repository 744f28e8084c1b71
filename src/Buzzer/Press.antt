-- ===== src/Buzzer/Press.antt =====
-- internal/buzzer/arm.go: the score of a press and the collection of presses.
use sigame_server.Prelude.{
  Bool, List, Option, String, [], any, ap, elem, false, if◌then◌else◌, ltb_ℤ, negsuc, none, not,
  pos, some, string_eq, true, ℕ, ◌&&◌, ◌++◌, ◌||◌, ◌∷◌,
}
use sigame_server.Pack.{Float64}
use sigame_server.Buzzer.Floats.{Floats, clamp, lit, ◌≺◌, ◌≼◌, ◌⊕◌, ◌⊖◌, ◌⊗◌, ◌⊘◌}
use sigame_server.Buzzer.Settings.{Mode}
use sigame_server.Buzzer.Constants.{eps_input, out_of_bounds_min}
use sigame_server.Buzzer.Conn.{Conn, TrustLevel}
use sigame_server.Buzzer.Trust.{add_flag, is_scoring, lockout, note_bias, note_reaction}
use sigame_server.Buzzer.Arm.{
  Arm, ArmMode, ArmPlayer, Press, PressAck, PressIn, Source, Status, Store, conn_at, on_conn,
}

-- What a call on the `*Conn` answers; `absent` where there is none.
unfoldable pub ask_conn {ℓ} : {B : Type ℓ} → Option ℕ → (Conn → Conn × B) → B → Store → Store × B
ask_conn {B} at f absent conns = go (conn_at at conns)
  where
    go : Option Conn → Store × B
    go none = (conns, absent)
    go (some c) = (on_conn at (λ d. (f c).0) conns, (f c).1)

module _ ⦃fl : Floats⦄ where
  abbrev pub ack_of : Status → String → PressAck
  ack_of status reason = record {
    status = status;
    reason = reason;
    lockout_until = lit 0;
    reaction = lit 0;
  }

  abbrev pub pending_ack : Press → PressAck
  pending_ack pr = record (ack_of Status.pending "") { reaction = pr.reaction }

  abbrev pub is_too_early : Status → Bool
  is_too_early Status.too_early = true
  is_too_early _ = false

  unfoldable pub lock : Arm → Float64 → Conn → Conn
  unfolding lockout
  lock a now =
      lockout now (fl.of_int a.s.false_start_lockout) a.s.lockout_growth (fl.of_int a.s.lockout_cap)

  abbrev pub flag_early : Bool → Option Float64 → Press → Press
  flag_early true (some until) pr = record pr { flags = pr.flags ++ "too_early" ∷ [] }
  flag_early _ _ pr = pr

  abbrev pub refusal_ack : Status → Float64 → Option Float64 → PressAck
  refusal_ack status reaction none = record (ack_of status "") { reaction = reaction }
  refusal_ack status reaction (some until) = record (ack_of status "") {
    lockout_until = until;
    reaction = reaction;
  }

  -- A lockout, with a flag when the press came too early for a human.
  unfoldable pub lock_out : Arm → Float64 → Bool → Conn → Conn × Option Float64
  unfolding add_flag
  lock_out a t_recv early c =
      let d = lock a t_recv c in (if early then add_flag "too_early" d else d, some d.locked_until)

  -- The refusal of a press, which locks the player out. The closure of the source reads the
  -- press of `score`, so it answers with that press.
  unfoldable pub refuse : Arm → Float64 → Press → Status → Store → Store × Press × PressAck
  unfolding ask_conn
  refuse a t_recv pr status conns =
      let early = is_too_early status in
      let locked = ask_conn pr.ap.conn (lock_out a t_recv early) none conns in
      (locked.0, flag_early early (locked.1) pr, refusal_ack status pr.reaction (locked.1))

  unfoldable pub note : Press → Bool → Bool → Store → Store × List String
  unfolding ask_conn note_reaction
  note pr clean clamped = ask_conn pr.ap.conn (note_reaction pr.reaction clean clamped) []

  abbrev pub accept_plain : Press → Store → Store × Press × PressAck
  accept_plain pr conns =
      let noted = note pr true false conns in
      let done = record pr { clean = true; flags = pr.flags ++ noted.1 } in
      (noted.0, done, pending_ack done)

  unfoldable pub score_arrival : Arm → Float64 → Press → Store → Store × Press × PressAck
  unfolding refuse
  score_arrival a t_recv blank conns =
      let pr = record blank {
        t_arr = t_recv;
        t_final = t_recv;
        source = Source.arrival;
        reaction = t_recv ⊖ a.t_arm;
      } in
      if t_recv ≺ a.t_arm
      then refuse a t_recv pr Status.false_start conns
      else accept_plain pr conns

  -- A missing or invalid client reaction counts as the worst.
  abbrev pub client_reaction : Arm → PressIn → Float64
  client_reaction a m =
      let r = m.press_local ⊖ m.lit_local in
      let worst = fl.of_int a.s.accept_window in
      if fl.eq m.lit_local (lit 0) || r ≼ lit 0 || worst ≺ r then worst else r

  unfoldable pub score_client : Arm → PressIn → Float64 → Press → Store → Store × Press × PressAck
  unfolding refuse
  score_client a m t_recv blank conns =
      let pr = record blank { t_arr = t_recv } in
      let r = client_reaction a m in
      if t_recv ≺ a.t_arm
      then refuse a t_recv (record pr { reaction = t_recv ⊖ a.t_arm }) Status.false_start conns
      else accept_plain
          (record pr {
            t_client = m.press_local ⊕ pr.ap.m.model.offset_ms;
            reaction = r;
            t_final = a.t_arm ⊕ r;
            source = Source.client;
          })
          conns

  -- A client stamp within its bounds is exact; outside it is clamped, and flagged when far outside.
  abbrev pub clamp_to : Bool → Float64 → Press → Press
  clamp_to true t_final pr = record pr {
    t_final = t_final;
    source = Source.client;
    err = eps_input;
  }
  clamp_to false t_final pr = record pr {
    t_final = t_final;
    source = Source.clamped;
    err = pr.ap.m.model.tol;
    clamp_dir = if pr.t_est ≺ pr.lo then negsuc 0 else pos 1;
    flags =
        if out_of_bounds_min ≺ fl.abs (t_final ⊖ pr.t_est)
        then pr.flags ++ "out_of_bounds" ∷ []
        else pr.flags;
  }

  abbrev pub clamp_stamp : Press → Press
  clamp_stamp pr =
      let t_final = clamp pr.t_est pr.lo pr.hi in clamp_to (fl.eq t_final pr.t_est) t_final pr

  abbrev pub is_clamped : Source → Bool
  is_clamped Source.clamped = true
  is_clamped _ = false

  unfoldable pub flag_far : Press → Store → Store
  unfolding add_flag
  flag_far pr conns =
      if is_clamped pr.source && elem "out_of_bounds" pr.flags
      then on_conn pr.ap.conn (add_flag "out_of_bounds") conns
      else conns

  abbrev pub widen : TrustLevel → Press → Press
  widen TrustLevel.conservative pr = record pr { err = fl.max pr.err pr.ap.m.model.u }
  widen _ pr = pr

  abbrev pub flag_bias : Bool → Press → Press
  flag_bias true pr = record pr { flags = pr.flags ++ "early_bias" ∷ [] }
  flag_bias false pr = pr

  unfoldable pub score_stamp : PressIn → Float64 → Press → Store → Store × Press
  unfolding clamp ask_conn note_bias
  score_stamp m t_recv pr conns =
      let ap = pr.ap in
      let t_client = m.press_local ⊕ ap.m.model.offset_ms in
      let credit =
        clamp (fl.min (m.lit_local ⊖ ap.arm_at_local) ap.ack_excess) (lit 0) ap.late_credit_max in
      let stamped = clamp_stamp (record pr {
        t_client = t_client;
        credit = credit;
        t_est = t_client ⊖ credit;
        lo = pr.t_arr ⊖ ap.m.model.tol;
        hi = fl.min t_recv (pr.t_arr ⊕ ap.m.model.tol);
      }) in
      let bias =
        ask_conn ap.conn (note_bias (t_client ⊖ pr.t_arr) ap.m) false (flag_far stamped conns) in
      (bias.0, widen ap.level (flag_bias (bias.1) stamped))

  unfoldable pub score_receipt : Arm → Press → Press
  unfolding clamp
  score_receipt a pr =
      let ap = pr.ap in
      let m = ap.m.model in
      let t_seen =
        ap.t_send ⊕ m.rtt_ref ⊘ lit 2 ⊕ clamp ap.ack_excess (lit 0) (lit 2 ⊗ m.sigma ⊕ lit 10) in
      record pr {
        t_final = a.t_arm ⊕ (pr.t_arr ⊖ t_seen);
        source = Source.server;
        err = ap.m.resid ⊕ lit 2 ⊗ m.sigma ⊕ eps_input;
      }

  -- The time of the press, by the trust in the player and the way the light was sent.
  abbrev pub estimate_by :
      TrustLevel → ArmMode → Arm → PressIn → Float64 → Press → Store → Store × Press
  estimate_by TrustLevel.arrival_only mode a m t_recv pr conns = (
    conns,
    record pr {
      t_final = t_recv;
      source = Source.arrival;
      err = pr.ap.m.model.rtt_ref ⊘ lit 2 ⊕ lit 2 ⊗ pr.ap.m.model.sigma ⊕ eps_input;
    },
  )
  estimate_by level ArmMode.on_receipt a m t_recv pr conns = (conns, score_receipt a pr)
  estimate_by TrustLevel.server_only ArmMode.scheduled a m t_recv pr conns = (
    conns,
    record pr {
      t_final = pr.t_arr;
      source = Source.server;
      err = pr.ap.m.model.rtt_ref ⊘ lit 4 ⊕ lit 2 ⊗ pr.ap.m.model.sigma ⊕ eps_input;
    },
  )
  estimate_by level ArmMode.scheduled a m t_recv pr conns = score_stamp m t_recv pr conns

  unfoldable pub estimate : Arm → PressIn → Float64 → Press → Store → Store × Press
  estimate a m t_recv pr conns = estimate_by pr.ap.level pr.ap.mode a m t_recv pr conns

  abbrev pub is_stamp : TrustLevel → Source → Bool
  is_stamp TrustLevel.full Source.client = true
  is_stamp TrustLevel.full Source.clamped = true
  is_stamp _ _ = false

  abbrev pub no_flags : List String → Bool
  no_flags [] = true
  no_flags _ = false

  unfoldable pub accept_anchored : Press → Store → Store × Press × PressAck
  unfolding is_scoring
  accept_anchored pr conns =
      let noted = note pr (no_flags pr.flags) (is_clamped pr.source) conns in
      let flags = pr.flags ++ noted.1 in
      let clean = is_stamp pr.ap.level pr.source && not (any is_scoring flags) in
      let done = record pr {
        flags = flags;
        clean = clean;
        err = if clean && ltb_ℤ pr.clamp_dir (pos 0) then eps_input else pr.err;
      } in
      (noted.0, done, pending_ack done)

  -- Before the light, sooner than a human can react, or a fair press.
  abbrev pub judge_reaction : Arm → Press → Float64 → Option Status
  judge_reaction a pr reaction =
      if reaction ≺ fl.neg pr.ap.m.model.u
      then some Status.false_start
      else if reaction ≺ fl.of_int a.s.min_human
      then some Status.too_early
      else none

  -- The most generous reaction that is consistent with what the server knows.
  abbrev pub react_bound : Arm → Float64 → ArmPlayer → Float64
  react_bound a t_recv ap =
      let half = ap.m.rtt_min_ref ⊘ lit 2 in t_recv ⊖ half ⊖ fl.max a.t_arm (ap.t_send ⊕ half)

  unfoldable pub conclude_anchored :
      Arm → Float64 → Press → Store → Press → Option Status → Store × Press × PressAck
  unfolding refuse
  conclude_anchored a t_recv blank conns pr (some status) = refuse a t_recv blank status conns
  conclude_anchored a t_recv blank conns pr none = accept_anchored pr conns

  -- The estimated press, with its reaction.
  unfoldable pub timed_press : Arm → PressIn → Float64 → Press → Store → Store × Press
  unfolding estimate
  timed_press a m t_recv blank conns =
      let timed =
        estimate a m t_recv
          (record blank {
            t_arr = t_recv ⊖ blank.ap.m.model.rtt_ref ⊘ lit 2;
            reaction = react_bound a t_recv blank.ap;
          })
          conns in
      (timed.0, record (timed.1) { reaction = timed.1.t_final ⊖ a.t_arm })

  unfoldable pub begin_anchored :
      Arm → PressIn → Float64 → Press → Store → Option Status → Store × Press × PressAck
  unfolding refuse
  begin_anchored a m t_recv blank conns (some status) = refuse a t_recv blank status conns
  begin_anchored a m t_recv blank conns none =
      let timed = timed_press a m t_recv blank conns in
      conclude_anchored a t_recv blank (timed.0) (timed.1)
        (judge_reaction a (timed.1) (timed.1.reaction))

  unfoldable pub score_anchored : Arm → PressIn → Float64 → Press → Store → Store × Press × PressAck
  score_anchored a m t_recv blank conns =
      begin_anchored a m t_recv blank conns (judge_reaction a blank (react_bound a t_recv blank.ap))

  abbrev pub blank_press : ArmPlayer → PressIn → Float64 → Press
  blank_press ap m t_recv = record {
    pid = ap.id;
    seq = m.seq;
    t_recv = t_recv;
    t_arr = lit 0;
    t_client = lit 0;
    lo = lit 0;
    hi = lit 0;
    credit = lit 0;
    t_est = lit 0;
    t_final = lit 0;
    reaction = lit 0;
    err = lit 0;
    source = Source.unset;
    clamp_dir = pos 0;
    flags = [];
    clean = false;
    ap = ap;
  }

  unfoldable pub score_by :
      Mode → Arm → ArmPlayer → PressIn → Float64 → Store → Store × Press × PressAck
  unfolding score_anchored
  score_by Mode.server_arrival a ap m t_recv = score_arrival a t_recv (blank_press ap m t_recv)
  score_by Mode.random_window a ap m t_recv = score_arrival a t_recv (blank_press ap m t_recv)
  score_by Mode.client_reaction a ap m t_recv = score_client a m t_recv (blank_press ap m t_recv)
  score_by _ a ap m t_recv = score_anchored a m t_recv (blank_press ap m t_recv)

  -- The arm is only read.
  unfoldable pub score : Arm → ArmPlayer → PressIn → Float64 → Store → Store × Press × PressAck
  score a ap m t_recv conns = score_by a.s.mode a ap m t_recv conns
