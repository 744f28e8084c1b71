-- ===== src/Buzzer/Arm.antt =====
-- internal/buzzer/arm.go: one armed button. The connections are a store, in which the `*Conn` of a
-- player is an address: the arm and the room hold the same objects.
use sigame_server.Prelude.{
  Bool, Dict, List, Option, String, [], ap, false, get_elem?, if◌then◌else◌, insert, insert_by,
  length, lookup, map, modify_at, negsuc, none, not, some, sort_by, string_eq, sub64, true, ℕ, ℤ,
  ◌++◌, ◌==◌, ◌∷◌,
}
use sigame_server.Pack.{Float64}
use sigame_server.Buzzer.Floats.{Floats, arm_id, lit, unit_float, ◌≺◌, ◌≼◌, ◌⊕◌, ◌⊖◌, ◌⊗◌, ◌⊘◌}
use sigame_server.Buzzer.Settings.{Mode, Settings, TieBreak}
use sigame_server.Buzzer.Conn.{Conn, Model, Quality, Snapshot, TrustLevel, new_conn}
use sigame_server.Buzzer.Trust.{trust}
use sigame_server.Buzzer.Clock.{snap}

abbrev pub Store : Type 0
Store = List Conn

pub record Player : Type 0 where
  pub id : String
  pub score : ℤ
  pub buttons_won : ℤ
  pub conn : Option ℕ
  pub eligible : Bool
  pub seat : ℤ

pub data ArmMode : Type 0 where
  scheduled on_receipt : ArmMode

pub record ArmMsg : Type 0 where
  pub arm_id : String
  pub arm_at : Float64
  pub arm_at_local : Float64
  pub mode : ArmMode
  pub deadline_at : Float64
  pub lockout_ms : ℤ

pub record ArmPlan : Type 0 where
  pub player_id : String
  pub send_at : Float64
  pub msg : ArmMsg

pub record PressIn : Type 0 where
  pub player_id : String
  pub seq : ℤ
  pub press_local : Float64
  pub lit_local : Float64
  pub src : String

pub data Status : Type 0 where
  pending rejected duplicate late stale locked_out too_early false_start : Status

pub record PressAck : Type 0 where
  pub status : Status
  pub reason : String
  pub lockout_until : Float64
  pub reaction : Float64

pub data Source : Type 0 where
  unset client clamped server arrival : Source

pub data ArmState : Type 0 where
  armed collecting draining resolved disarmed : ArmState

-- `unset` is the zero value, before there is a result.
pub data ResultKind : Type 0 where
  unset winner nobody all_play : ResultKind

pub record Ranking : Type 0 where
  pub player_id : String
  pub reaction : Float64
  pub err : Float64
  pub rtt : Float64
  pub u : Float64
  pub source : Source
  pub flags : List String

pub record Result : Type 0 where
  pub arm_id : String
  pub winner_id : String
  pub kind : ResultKind
  pub contested : Bool
  pub tie_break : TieBreak
  pub rule : String
  pub margin : Float64
  pub ranking : List Ranking
  pub tie : List String
  pub resolved_at : Float64
  pub collect : Float64
  pub seed : String

pub record AuditEntry : Type 0 where
  pub player_id : String
  pub status : Status
  pub t_recv : Float64
  pub t_arr : Float64
  pub t_client : Float64
  pub lo : Float64
  pub hi : Float64
  pub credit : Float64
  pub t_final : Float64
  pub reaction : Float64
  pub source : Source
  pub flags : List String
  pub model : Model

pub record ArmPlayer : Type 0 where
  pub id : String
  pub score : ℤ
  pub buttons_won : ℤ
  pub seat : ℤ
  pub conn : Option ℕ
  pub m : Snapshot
  pub level : TrustLevel
  pub mode : ArmMode
  pub eligible : Bool
  pub arm_at_local : Float64
  pub send_at : Float64
  pub t_send : Float64
  pub late_allow : Float64
  pub late_credit_max : Float64
  pub acked : Bool
  pub ack_excess : Float64
  pub pressed : Bool

-- The player is held as it was at the press: what is read through the pointer never changes.
pub record Press : Type 0 where
  pub pid : String
  pub seq : ℤ
  pub t_recv : Float64
  pub t_arr : Float64
  pub t_client : Float64
  pub lo : Float64
  pub hi : Float64
  pub credit : Float64
  pub t_est : Float64
  pub t_final : Float64
  pub reaction : Float64
  pub err : Float64
  pub source : Source
  pub clamp_dir : ℤ
  pub flags : List String
  pub clean : Bool
  pub ap : ArmPlayer

-- `by_id` holds the place of each player in `players`.
pub record Arm : Type 0 where
  pub s : Settings
  pub seed : String
  pub id : String
  pub created : Float64
  pub t_arm : Float64
  pub disarm_at : Float64
  pub drain_end : Float64
  pub state : ArmState
  pub players : List ArmPlayer
  pub by_id : Dict ℕ
  pub plans : List ArmPlan
  pub presses : List Press
  pub audit : List AuditEntry
  pub has_first : Bool
  pub first_recv : Float64
  pub best_t : Float64
  pub close_at : Float64
  pub result : Result
  pub rotate_after : ℤ

-- An arm with the connections it shares with the room.
pub record Session : Type 0 where
  pub arm : Arm
  pub conns : Store

-- A call on the `*Conn`, when there is one.
abbrev pub on_conn : Option ℕ → (Conn → Conn) → Store → Store
on_conn none f conns = conns
on_conn (some at) f conns = modify_at conns at f

abbrev pub conn_at : Option ℕ → Store → Option Conn
conn_at none conns = none
conn_at (some at) conns = get_elem? conns at

abbrev pub player_at : Option ℕ → List ArmPlayer → Option ArmPlayer
player_at none ps = none
player_at (some i) ps = get_elem? ps i

abbrev pub change_at : Option ℕ → (ArmPlayer → ArmPlayer) → List ArmPlayer → List ArmPlayer
change_at none f ps = ps
change_at (some i) f ps = modify_at ps i f

-- `a.byID[id]`, and a write through that pointer.
unfoldable pub player_of : String → Arm → Option ArmPlayer
unfolding lookup
player_of id a = player_at (lookup id a.by_id) a.players

unfoldable pub with_player : String → (ArmPlayer → ArmPlayer) → Arm → Arm
unfolding lookup
with_player id f a = record a { players = change_at (lookup id a.by_id) f a.players }

module _ ⦃fl : Floats⦄ where
  unfoldable pub recompute_credit : Float64 → ArmPlayer → ArmPlayer
  recompute_credit t_arm ap = record ap {
    late_credit_max =
        fl.max (lit 0) (ap.t_send ⊕ ap.m.model.rtt_ref ⊘ lit 2 ⊕ lit 3 ⊗ ap.m.model.sigma ⊖ t_arm)
        ⊕ ap.late_allow;
  }

  abbrev pub no_result : Result
  no_result = record {
    arm_id = "";
    winner_id = "";
    kind = ResultKind.unset;
    contested = false;
    tie_break = TieBreak.unknown;
    rule = "";
    margin = lit 0;
    ranking = [];
    tie = [];
    resolved_at = lit 0;
    collect = lit 0;
    seed = "";
  }

  abbrev pub configure : Settings → Conn → Conn
  configure s c = record c {
    tol_cap = fl.of_int s.tol_cap;
    auto_trust = s.auto_trust;
    strict_trust = s.strict_trust;
  }

  -- Whether the player's clock is known well enough for a scheduled light.
  abbrev pub is_scheduled : Settings → Model → Bool
  is_scheduled s m = go s.mode m.quality
    where
      go : Mode → Quality → Bool
      go Mode.anchored_hybrid Quality.unsynced = false
      go Mode.anchored_hybrid _ = m.rtt_ref ≼ fl.of_int s.max_rtt
      go _ _ = false

  abbrev pub send_time : Settings → Float64 → Model → Float64
  send_time s t_arm m = if is_scheduled s m then t_arm ⊖ m.lead else unscheduled s.mode
    where
      unscheduled : Mode → Float64
      unscheduled Mode.anchored_hybrid = t_arm ⊖ m.rtt_ref ⊘ lit 2
      unscheduled _ = t_arm

  -- The frozen view of one player, from the snapshot and the trust level at the arming.
  unfoldable pub arm_player :
      Settings → Float64 → Float64 → Player → Snapshot → TrustLevel → ArmPlayer
  unfolding recompute_credit
  arm_player s now t_arm p snapshot level =
      let m = snapshot.model in
      let planned = send_time s t_arm m in
      let send_at = if planned ≺ now then now else planned in
      recompute_credit t_arm (record {
        id = p.id;
        score = p.score;
        buttons_won = p.buttons_won;
        seat = p.seat;
        conn = p.conn;
        m = snapshot;
        level = level;
        mode = if is_scheduled s m then ArmMode.scheduled else ArmMode.on_receipt;
        eligible = true;
        arm_at_local = t_arm ⊖ m.offset_ms;
        send_at = send_at;
        t_send = send_at;
        late_allow = fl.min (lit 2 ⊗ m.sigma ⊕ lit 10) (fl.of_int s.late_light_credit);
        late_credit_max = lit 0;
        acked = false;
        ack_excess = lit 0;
        pressed = false;
      })

  abbrev pub plan_for : Arm → ArmPlayer → ArmPlan
  plan_for a ap = record {
    player_id = ap.id;
    send_at = ap.send_at;
    msg = record {
      arm_id = a.id;
      arm_at = a.t_arm;
      arm_at_local = ap.arm_at_local;
      mode = ap.mode;
      deadline_at = a.disarm_at;
      lockout_ms = a.s.false_start_lockout;
    };
  }

  unfoldable pub view : Float64 → Option Conn → Snapshot × TrustLevel
  unfolding snap trust new_conn
  view now (some c) = (snap now c, (trust c).level)
  view now none = (snap now (new_conn now), TrustLevel.full)

  -- One turn of the loop over the players, with the longest drain so far.
  unfoldable pub enlist : Float64 → Player → Session × Float64 → Session × Float64
  unfolding insert
  enlist now p (ss, drain) =
      let a = ss.arm in
      let conns = on_conn p.conn (configure a.s) ss.conns in
      let seen = view now (conn_at p.conn conns) in
      let ap = arm_player a.s now a.t_arm p (seen.0) (seen.1) in
      let d = ap.m.model.rtt_ref ⊕ lit 3 ⊗ ap.m.model.sigma ⊕ ap.m.model.tol in
      if not p.eligible then (ss, drain) else (
        record {
          arm = record a {
            players = a.players ++ ap ∷ [];
            by_id = insert ap.id (length a.players) a.by_id;
            plans = a.plans ++ plan_for a ap ∷ [];
          };
          conns = conns;
        },
        if drain ≺ d then d else drain,
      )

  unfoldable pub enlist_all : Float64 → List Player → Session × Float64 → Session × Float64
  unfolding enlist
  enlist_all now [] acc = acc
  enlist_all now (p ∷ ps) acc = enlist_all now ps (enlist now p acc)

  unfoldable pub blank_arm : Float64 → Float64 → Settings → String → Arm
  unfolding unit_float arm_id
  blank_arm now read_end s seed =
      let jitter =
        fl.of_int s.arm_jitter_min
        ⊕ unit_float seed "tArm" ⊗ fl.of_int (sub64 s.arm_jitter_max s.arm_jitter_min) in
      let t_arm = fl.max read_end now ⊕ jitter in
      record {
        s = s;
        seed = seed;
        id = arm_id seed;
        created = now;
        t_arm = t_arm;
        disarm_at = t_arm ⊕ fl.of_int s.press_window;
        drain_end = lit 0;
        state = ArmState.armed;
        players = [];
        by_id = [];
        plans = [];
        presses = [];
        audit = [];
        has_first = false;
        first_recv = lit 0;
        best_t = lit 0;
        close_at = lit 0;
        result = no_result;
        rotate_after = negsuc 0;
      }

  abbrev pub written_duel : Float64 → Arm → Arm
  written_duel now a = record a {
    state = ArmState.resolved;
    plans = [];
    result = record no_result {
      arm_id = a.id;
      kind = ResultKind.all_play;
      contested = true;
      tie_break = TieBreak.all_play;
      rule = "allPlay";
      resolved_at = now;
      seed = fl.hex_text a.seed;
      tie = map (λ ap. ap.id) a.players;
    };
  }

  abbrev pub open_mode : Mode → Float64 → Arm → Arm
  open_mode Mode.written_all now a = written_duel now a
  open_mode _ now a = a

  -- Before the loop over the players.
  abbrev pub opening : Float64 → Float64 → Settings → String → Store → Session × Float64
  opening now read_end s seed conns =
      (record { arm = blank_arm now read_end s seed; conns = conns }, lit 0)

  unfoldable pub new_arm : Float64 → Float64 → List Player → Settings → String → Store → Session
  unfolding sort_by insert_by
  new_arm now read_end players s seed conns =
      let used = if seed == "" then fl.default_seed now else seed in
      let loop = enlist_all now players (opening now read_end s used conns) in
      let a = loop.0.arm in
      record {
        arm = open_mode s.mode now (record a {
          plans = sort_by (λ x y. x.send_at ≺ y.send_at) a.plans;
          drain_end = a.disarm_at ⊕ loop.1;
        });
        conns = loop.0.conns;
      }
