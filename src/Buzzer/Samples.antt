-- ===== src/Buzzer/Samples.antt =====
-- A float64 of whole numbers, and an arm of three players, for the tests.
use sigame_server.Prelude.{
  List, String, [], false, if◌then◌else◌, leb, ltb, map, nat_beq, pos, pos_part, some, sort_by,
  true, ℕ, ◌*◌, ◌+◌, ◌-◌, ◌/◌, ◌∷◌,
}
use sigame_server.Pack.{Float64}
use sigame_server.Buzzer.Floats.{Floats}
use sigame_server.Buzzer.Settings.{Mode, NetProfile, Settings, TieBreak, TieMode}
use sigame_server.Buzzer.Conn.{new_conn}
use sigame_server.Buzzer.Arm.{Player, PressIn, Session, Store, new_arm}
use sigame_server.Buzzer.Run.{Call}

abbrev numbered : ℕ → List Float64 → List (Float64 × ℕ)
numbered i [] = []
numbered i (x ∷ xs) = (x, i) ∷ numbered (i + 1) xs

-- Times are whole milliseconds, infinity is a far time, and subtraction stops at 0.
instance abbrev pub whole : Floats
whole = record {
  add = λ x y. x + y;
  sub = λ x y. x - y;
  mul = λ x y. x * y;
  div = λ x y. x / y;
  neg = λ x. 0;
  lt = ltb;
  le = leb;
  eq = nat_beq;
  abs = λ x. x;
  max = λ x y. if ltb x y then y else x;
  min = λ x y. if ltb x y then x else y;
  hypot = λ x y. x + y;
  erfc = λ x. x;
  sqrt_two = 1;
  inf = 1000000;
  neg_inf = 0;
  is_nan = λ x. false;
  is_inf = λ x. nat_beq x 1000000;
  of_int = pos_part;
  to_int = pos;
  num = λ n d. n / d;
  hmac = λ seed label. [];
  hex = λ bytes. "";
  hex_text = λ seed. seed;
  default_seed = λ now. "seed";
  slice_order = λ keys. map (λ e. e.1) (sort_by (λ x y. ltb (x.0) (y.0)) (numbered 0 keys));
}

abbrev pub seat_of : String → ℕ → ℕ → Player
seat_of id at seat = record {
  id = id;
  score = pos 0;
  buttons_won = pos 0;
  conn = some at;
  eligible = true;
  seat = pos seat;
}

abbrev pub three_players : List Player
three_players = seat_of "ann" 0 0 ∷ seat_of "bob" 1 1 ∷ seat_of "cid" 2 2 ∷ []

abbrev pub party : Settings
party = record {
  mode = Mode.server_arrival;
  net_profile = NetProfile.wifi;
  tie_mode = TieMode.uncertainty;
  tie_break = TieBreak.likelihood;
  arm_jitter_min = pos 200;
  arm_jitter_max = pos 1200;
  press_window = pos 5000;
  max_collect = pos 400;
  tie_ms = pos 2;
  tie_min = pos 3;
  tie_max = pos 40;
  tol_cap = pos 60;
  late_light_credit = pos 20;
  min_human = pos 100;
  false_start_lockout = pos 3000;
  lockout_growth = 2;
  lockout_cap = pos 6000;
  max_rtt = pos 200;
  auto_trust = true;
  strict_trust = false;
  show_ping = true;
  random_window = pos 300;
  accept_window = pos 300;
}

abbrev pub three_conns : Store
unfolding new_conn
three_conns = new_conn 0 ∷ new_conn 0 ∷ new_conn 0 ∷ []

abbrev pub press_of : String → PressIn
press_of id = record { player_id = id; seq = pos 1; press_local = 0; lit_local = 0; src = "key" }

-- Ann and Bob press, Bob again, and the button is decided.
abbrev pub two_presses : List Call
two_presses =
    Call.press (press_of "bob") 1500
    ∷ Call.press (press_of "ann") 1600
    ∷ Call.press (press_of "bob") 1700
    ∷ []

unfoldable pub fresh_session : Session
unfolding new_arm new_conn
fresh_session = new_arm 1000 1000 three_players party "seed" three_conns
