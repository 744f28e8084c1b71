-- ===== src/Buzzer/Conn.antt =====
-- internal/buzzer/conn.go: the measured state of one connection. A method that changes the
-- connection returns the new one; the scratch buffers, which only save allocations, are left out.
use sigame_server.Prelude.{Bool, Dict, List, Option, String, [], false, none, pos, true, ℕ, ℤ, ◌+◌}
use sigame_server.Pack.{Float64}
use sigame_server.Buzzer.Floats.{Floats, lit}
use sigame_server.Buzzer.Ring.{Ring, new_ring}
use sigame_server.Buzzer.Constants.{
  ack_late_window, app_ring_size, clamp_ratio_window, default_tol_cap_ms, early_bias_window,
  pending_syncs, rate_limit_presses, reaction_history, ws_ring_size,
}

pub data Quality : Type 0 where
  unsynced good fair poor : Quality

pub data TrustLevel : Type 0 where
  full conservative server_only arrival_only : TrustLevel

pub record Model : Type 0 where
  pub offset_ms : Float64
  pub rtt_ref : Float64
  pub rtt_ws : Float64
  pub rtt_kernel : Float64
  pub sigma : Float64
  pub tol : Float64
  pub u : Float64
  pub lead : Float64
  pub quality : Quality
  pub flags : List String
  pub samples : ℕ

pub record Snapshot : Type 0 where
  pub model : Model
  pub resid : Float64
  pub rtt_min : Float64
  pub rtt_max_16 : Float64
  pub rtt_min_ref : Float64
  pub sigma_app : Float64
  pub sigma_anchor : Float64
  pub anchor_lo : Float64
  pub anchor_hi : Float64
  pub anchored : Bool

pub record Trust : Type 0 where
  pub score : ℤ
  pub level : TrustLevel
  pub flags : Dict ℕ

pub record SyncIn : Type 0 where
  pub seq : ℤ
  pub c1 : Float64
  pub prev_seq : ℤ
  pub prev_c4 : Float64
  pub has_prev : Bool

pub record SyncOut : Type 0 where
  pub seq : ℤ
  pub c1 : Float64
  pub s2 : Float64
  pub s3 : Float64
  pub model : Model

pub record Sample : Type 0 where
  pub rtt : Float64
  pub off : Float64
  pub at : Float64

pub record PendingSync : Type 0 where
  pub seq : ℤ
  pub c1 : Float64
  pub s2 : Float64
  pub s3 : Float64
  pub ok : Bool

pub record Kernel : Type 0 where
  pub srtt : Float64
  pub rttvar : Float64
  pub at : Float64
  pub ok : Bool

-- A detector's start of the condition (-1: none) and whether it was charged.
pub record Tracker : Type 0 where
  pub since : Float64
  pub flagged : Bool

pub record Conn : Type 0 where
  pub tol_cap : Float64
  pub auto_trust : Bool
  pub strict_trust : Bool
  pub force_level : Option TrustLevel
  pub created_at : Float64
  pub pend : Ring PendingSync
  pub app : Ring Sample
  pub ewma : Float64
  pub rttvar : Float64
  pub ewma_count : ℕ
  pub ws : Ring Sample
  pub ws_ewma : Float64
  pub ws_ewma_count : ℕ
  pub last_pong : Float64
  pub kern : Kernel
  pub offset : Float64
  pub offset_ok : Bool
  pub step_dir : ℤ
  pub step_run : ℕ
  pub cold : Bool
  pub since_cold : ℕ
  pub flags : Dict ℕ
  pub score : ℤ
  pub clean_streak : ℕ
  pub rtt_infl : Tracker
  pub jit_infl : Tracker
  pub ws_infl : Tracker
  pub last_sync_lie : Float64
  pub last_rate_flag : Float64
  pub bias : Ring Float64
  pub react : Ring Float64
  pub presses : ℕ
  pub bot_flag : Bool
  pub bot_flag_at : ℕ
  pub clamp_flag_at : ℕ
  pub bias_active : Bool
  pub clamp_hist : Ring Bool
  pub clamp_flag : Bool
  pub ack_late : Ring Bool
  pub ack_late_flag : Bool
  pub press_times : Ring Float64
  pub locked_until : Float64
  pub false_starts : Ring Float64

module _ ⦃fl : Floats⦄ where
  abbrev zero_sample : Sample
  zero_sample = record { rtt = lit 0; off = lit 0; at = lit 0 }

  abbrev minus_one : Float64
  minus_one = fl.neg (lit 1)

  abbrev idle : Tracker
  idle = record { since = minus_one; flagged = false }

  unfoldable pub new_conn : Float64 → Conn
  unfolding new_ring
  new_conn now = record {
    tol_cap = default_tol_cap_ms;
    auto_trust = true;
    strict_trust = false;
    force_level = none;
    created_at = now;
    pend =
        new_ring pending_syncs
          (record { seq = pos 0; c1 = lit 0; s2 = lit 0; s3 = lit 0; ok = false });
    app = new_ring app_ring_size zero_sample;
    ewma = lit 0;
    rttvar = lit 0;
    ewma_count = 0;
    ws = new_ring ws_ring_size zero_sample;
    ws_ewma = lit 0;
    ws_ewma_count = 0;
    last_pong = lit 0;
    kern = record { srtt = lit 0; rttvar = lit 0; at = lit 0; ok = false };
    offset = lit 0;
    offset_ok = false;
    step_dir = pos 0;
    step_run = 0;
    cold = false;
    since_cold = 0;
    flags = [];
    score = pos 0;
    clean_streak = 0;
    rtt_infl = idle;
    jit_infl = idle;
    ws_infl = idle;
    last_sync_lie = fl.neg_inf;
    last_rate_flag = fl.neg_inf;
    bias = new_ring early_bias_window (lit 0);
    react = new_ring reaction_history (lit 0);
    presses = 0;
    bot_flag = false;
    bot_flag_at = 0;
    clamp_flag_at = 0;
    bias_active = false;
    clamp_hist = new_ring clamp_ratio_window false;
    clamp_flag = false;
    ack_late = new_ring ack_late_window false;
    ack_late_flag = false;
    press_times = new_ring (rate_limit_presses + 3) (lit 0);
    locked_until = lit 0;
    false_starts = new_ring 8 (lit 0);
  }
