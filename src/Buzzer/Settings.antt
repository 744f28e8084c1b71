-- ===== src/Buzzer/Settings.antt =====
-- internal/buzzer/settings.go: the host's settings of the button, their presets and their checks.
pub mod Ranges
use sigame_server.Prelude.{
  Bool, List, Option, String, [], false, if◌then◌else◌, ltb_ℤ, none, pos, some, string_eq, true, ℕ,
  ℤ, ◌==◌, ◌||◌, ◌∷◌,
}
use sigame_server.Pack.{Float64}
use sigame_server.Buzzer.Floats.{Floats, lit, ◌≺◌}

-- `unknown` stands for every other string, in this and the other enumerations.
pub data Mode : Type 0 where
  anchored_hybrid server_arrival random_window client_reaction written_all unknown : Mode

pub data TieMode : Type 0 where
  resolution uncertainty unknown : TieMode

pub data TieBreak : Type 0 where
  likelihood most_likely random lowest_score fewest_buttons_won rotate all_play unknown : TieBreak

pub data NetProfile : Type 0 where
  lan wifi wan unknown : NetProfile

pub record Settings : Type 0 where
  pub mode : Mode
  pub net_profile : NetProfile
  pub tie_mode : TieMode
  pub tie_break : TieBreak
  pub arm_jitter_min : ℤ
  pub arm_jitter_max : ℤ
  pub press_window : ℤ
  pub max_collect : ℤ
  pub tie_ms : ℤ
  pub tie_min : ℤ
  pub tie_max : ℤ
  pub tol_cap : ℤ
  pub late_light_credit : ℤ
  pub min_human : ℤ
  pub false_start_lockout : ℤ
  pub lockout_growth : Float64
  pub lockout_cap : ℤ
  pub max_rtt : ℤ
  pub auto_trust : Bool
  pub strict_trust : Bool
  pub show_ping : Bool
  pub random_window : ℤ
  pub accept_window : ℤ

-- What `Validate` reports, one constructor for each of its messages.
pub data SettingsError : Type 0 where
  unknown_mode unknown_net_profile unknown_tie_mode unknown_tie_break : SettingsError
  arm_jitter tie_window : ℤ → ℤ → SettingsError
  press_window max_collect tie_ms tol_cap late_light_credit min_human false_start_lockout
        lockout_cap max_rtt random_window accept_window :
      ℤ → SettingsError
  lockout_growth : Float64 → SettingsError

abbrev pub preset_names : List String
preset_names = "lanWired" ∷ "wifiParty" ∷ "internetFair" ∷ "tournament" ∷ "noRace" ∷ []

unfoldable pub outside : ℤ → ℕ → ℕ → Bool
outside x lo hi = ltb_ℤ x (pos lo) || ltb_ℤ (pos hi) x

-- A pair of bounds that is not 0 <= lo <= hi <= top, and one that is not lo <= hi <= top.
unfoldable pub disordered : ℤ → ℤ → ℕ → Bool
disordered lo hi top = ltb_ℤ lo (pos 0) || ltb_ℤ hi lo || ltb_ℤ (pos top) hi

unfoldable pub uncapped : ℤ → ℤ → ℕ → Bool
uncapped lo hi top = ltb_ℤ hi lo || ltb_ℤ (pos top) hi

module _ ⦃fl : Floats⦄ where
  unfoldable pub base_settings : Settings
  base_settings = record {
    mode = Mode.anchored_hybrid;
    net_profile = NetProfile.wifi;
    tie_mode = TieMode.uncertainty;
    tie_break = TieBreak.likelihood;
    arm_jitter_min = pos 200;
    arm_jitter_max = pos 1200;
    press_window = pos 5000;
    max_collect = pos 400;
    tie_ms = pos 2;
    tie_min = pos 3;
    tie_max = pos 40;
    tol_cap = pos 60;
    late_light_credit = pos 20;
    min_human = pos 100;
    false_start_lockout = pos 3000;
    lockout_growth = lit 2;
    lockout_cap = pos 6000;
    max_rtt = pos 200;
    auto_trust = true;
    strict_trust = false;
    show_ping = true;
    random_window = pos 300;
    accept_window = pos 300;
  }

  -- The changes that the two wired presets share.
  unfoldable pub wired : ℤ → Settings
  unfolding base_settings
  wired jitter = record base_settings {
    net_profile = NetProfile.lan;
    tie_mode = TieMode.resolution;
    tie_break = TieBreak.most_likely;
    arm_jitter_min = pos 300;
    arm_jitter_max = jitter;
    max_collect = pos 200;
    tie_min = pos 2;
    tol_cap = pos 40;
    false_start_lockout = pos 1000;
    max_rtt = pos 80;
  }

  abbrev pub lan_wired : Settings
  lan_wired = wired (pos 800)

  unfoldable pub internet_fair : Settings
  unfolding base_settings
  internet_fair = record base_settings {
    net_profile = NetProfile.wan;
    max_collect = pos 600;
    tie_max = pos 60;
    tol_cap = pos 80;
    max_rtt = pos 350;
  }

  abbrev pub tournament : Settings
  tournament = record (wired (pos 1200)) { late_light_credit = pos 0; strict_trust = true }

  unfoldable pub no_race : Settings
  unfolding base_settings
  no_race = record base_settings { mode = Mode.written_all; tie_break = TieBreak.all_play }

  unfoldable pub preset : String → Option Settings
  preset name =
      if name == "wifiParty"
      then some base_settings
      else if name == "lanWired"
      then some lan_wired
      else if name == "internetFair"
      then some internet_fair
      else if name == "tournament"
      then some tournament
      else if name == "noRace"
      then some no_race
      else none

  unfoldable pub default_settings : Settings
  unfolding base_settings
  default_settings = base_settings

  abbrev pub check_mode : Mode → Option SettingsError
  check_mode Mode.unknown = some SettingsError.unknown_mode
  check_mode _ = none

  abbrev pub check_net_profile : NetProfile → Option SettingsError
  check_net_profile NetProfile.unknown = some SettingsError.unknown_net_profile
  check_net_profile _ = none

  abbrev pub check_tie_mode : TieMode → Option SettingsError
  check_tie_mode TieMode.unknown = some SettingsError.unknown_tie_mode
  check_tie_mode _ = none

  abbrev pub check_tie_break : TieBreak → Option SettingsError
  check_tie_break TieBreak.unknown = some SettingsError.unknown_tie_break
  check_tie_break _ = none

  -- The first error counts.
  infixr 40 ◌orelse◌
  unfoldable pub ◌orelse◌ : Option SettingsError → Option SettingsError → Option SettingsError
  some e orelse r = some e
  none orelse r = r

  unfoldable pub fails : Bool → SettingsError → Option SettingsError
  fails true e = some e
  fails false e = none

  -- The ranges that only count in one mode.
  abbrev pub check_human : Mode → ℤ → Option SettingsError
  check_human Mode.anchored_hybrid x = fails (outside x 100 300) (SettingsError.min_human x)
  check_human _ _ = none

  abbrev pub check_random_window : Mode → ℤ → Option SettingsError
  check_random_window Mode.random_window x =
      fails (outside x 50 2000) (SettingsError.random_window x)
  check_random_window _ _ = none

  abbrev pub check_accept_window : Mode → ℤ → Option SettingsError
  check_accept_window Mode.client_reaction x =
      fails (outside x 50 2000) (SettingsError.accept_window x)
  check_accept_window _ _ = none

  abbrev pub check_enums : Settings → Option SettingsError
  check_enums s =
      check_mode s.mode
      orelse check_net_profile s.net_profile
      orelse check_tie_mode s.tie_mode
      orelse check_tie_break s.tie_break

  abbrev pub check_windows : Settings → Option SettingsError
  check_windows s =
      fails (disordered s.arm_jitter_min s.arm_jitter_max 10000)
        (SettingsError.arm_jitter s.arm_jitter_min s.arm_jitter_max)
      orelse fails (outside s.press_window 500 60000) (SettingsError.press_window s.press_window)
      orelse fails (outside s.max_collect 50 2000) (SettingsError.max_collect s.max_collect)
      orelse fails (outside s.tie_ms 0 1000) (SettingsError.tie_ms s.tie_ms)
      orelse fails (disordered s.tie_min s.tie_max 1000)
          (SettingsError.tie_window s.tie_min s.tie_max)
      orelse fails (outside s.tol_cap 5 200) (SettingsError.tol_cap s.tol_cap)

  abbrev pub check_lockouts : Settings → Option SettingsError
  check_lockouts s =
      fails (outside s.late_light_credit 0 200)
        (SettingsError.late_light_credit s.late_light_credit)
      orelse check_human s.mode s.min_human
      orelse fails (outside s.false_start_lockout 0 60000)
          (SettingsError.false_start_lockout s.false_start_lockout)
      orelse fails (s.lockout_growth ≺ lit 1 || lit 10 ≺ s.lockout_growth)
          (SettingsError.lockout_growth s.lockout_growth)
      orelse fails (uncapped s.false_start_lockout s.lockout_cap 120000)
          (SettingsError.lockout_cap s.lockout_cap)
      orelse fails (outside s.max_rtt 20 5000) (SettingsError.max_rtt s.max_rtt)
      orelse check_random_window s.mode s.random_window
      orelse check_accept_window s.mode s.accept_window

  -- `none` where the settings are accepted.
  unfoldable pub validate : Settings → Option SettingsError
  unfolding ◌orelse◌ fails outside disordered uncapped
  validate s = check_enums s orelse check_windows s orelse check_lockouts s

unfoldable pub default_max_collect : NetProfile → ℤ
default_max_collect NetProfile.lan = pos 200
default_max_collect NetProfile.wan = pos 600
default_max_collect _ = pos 400

unfoldable pub default_tol_cap : NetProfile → ℤ
default_tol_cap NetProfile.lan = pos 40
default_tol_cap NetProfile.wan = pos 80
default_tol_cap _ = pos 60
