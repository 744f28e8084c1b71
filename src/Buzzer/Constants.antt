-- ===== src/Buzzer/Constants.antt =====
-- internal/buzzer/conn.go: the constants of the measurement and of the detectors.
use sigame_server.Prelude.{ℕ}
use sigame_server.Pack.{Float64}
use sigame_server.Buzzer.Floats.{Floats, lit}

abbrev pub app_ring_size : ℕ
app_ring_size = 64

abbrev pub pending_syncs : ℕ
pending_syncs = 8

abbrev pub ws_ring_size : ℕ
ws_ring_size = 32

abbrev pub mad_window : ℕ
mad_window = 16

abbrev pub ws_floor_min_samples : ℕ
ws_floor_min_samples = 8

abbrev pub step_run_limit : ℕ
step_run_limit = 3

abbrev pub unsynced_min_samples : ℕ
unsynced_min_samples = 5

abbrev pub early_bias_window : ℕ
early_bias_window = 16

abbrev pub clamp_ratio_repeat : ℕ
clamp_ratio_repeat = 10

abbrev pub bot_repeat : ℕ
bot_repeat = 8

abbrev pub bot_min_presses : ℕ
bot_min_presses = 8

abbrev pub clamp_ratio_window : ℕ
clamp_ratio_window = 10

abbrev pub clamp_ratio_min_presses : ℕ
clamp_ratio_min_presses = 5

abbrev pub ack_late_window : ℕ
ack_late_window = 5

abbrev pub ack_late_count : ℕ
ack_late_count = 4

abbrev pub rate_limit_presses : ℕ
rate_limit_presses = 5

abbrev pub reaction_history : ℕ
reaction_history = 16

abbrev pub trust_clean_streak : ℕ
trust_clean_streak = 5

module _ ⦃fl : Floats⦄ where
  abbrev pub rtt_min_window : Float64
  rtt_min_window = lit 30000

  abbrev pub ewma_alpha : Float64
  ewma_alpha = fl.num 1 8

  abbrev pub rtt_var_beta : Float64
  rtt_var_beta = fl.num 1 4

  abbrev pub mad_scale : Float64
  mad_scale = fl.num 14826 10000

  abbrev pub max_sample_rtt : Float64
  max_sample_rtt = lit 10000

  abbrev pub anchor_slack_ws : Float64
  anchor_slack_ws = lit 15

  abbrev pub anchor_slack_kernel : Float64
  anchor_slack_kernel = lit 10

  abbrev pub anchor_floor_margin : Float64
  anchor_floor_margin = lit 1

  abbrev pub sigma_slack : Float64
  sigma_slack = lit 3

  abbrev pub sigma_min : Float64
  sigma_min = fl.num 1 2

  abbrev pub sigma_max : Float64
  sigma_max = lit 30

  abbrev pub sigma_cold : Float64
  sigma_cold = lit 20

  abbrev pub resid_frac : Float64
  resid_frac = fl.num 1 10

  abbrev pub resid_min : Float64
  resid_min = lit 2

  abbrev pub resid_max : Float64
  resid_max = lit 10

  abbrev pub eps_input : Float64
  eps_input = lit 2

  abbrev pub tol_min : Float64
  tol_min = lit 5

  abbrev pub default_tol_cap_ms : Float64
  default_tol_cap_ms = lit 60

  abbrev pub lead_base : Float64
  lead_base = lit 20

  abbrev pub lead_min : Float64
  lead_min = lit 25

  abbrev pub lead_max : Float64
  lead_max = lit 400

  abbrev pub step_margin : Float64
  step_margin = lit 5

  abbrev pub unsynced_window : Float64
  unsynced_window = lit 10000

  abbrev pub quality_good_rtt : Float64
  quality_good_rtt = lit 30

  abbrev pub quality_good_sigma : Float64
  quality_good_sigma = lit 5

  abbrev pub quality_fair_sigma : Float64
  quality_fair_sigma = lit 20

  abbrev pub inflation_window : Float64
  inflation_window = lit 6000

  abbrev pub jitter_infl_factor : Float64
  jitter_infl_factor = lit 2

  abbrev pub jitter_infl_margin : Float64
  jitter_infl_margin = lit 5

  abbrev pub sync_lie_min_gap : Float64
  sync_lie_min_gap = lit 2000

  abbrev pub wait_per_player_max : Float64
  wait_per_player_max = lit 200

  abbrev pub bot_median : Float64
  bot_median = lit 170

  abbrev pub bot_mad : Float64
  bot_mad = lit 25

  abbrev pub clamp_ratio_limit : Float64
  clamp_ratio_limit = fl.num 3 10

  abbrev pub out_of_bounds_min : Float64
  out_of_bounds_min = lit 5

  abbrev pub rate_limit_window : Float64
  rate_limit_window = lit 1000

  abbrev pub lockout_repeat_window : Float64
  lockout_repeat_window = lit 10000
