-- ===== src/Buzzer/Trust/Ladder.antt =====
-- internal/buzzer/conn.go: the trust ladder.
use sigame_server.Prelude.{Bool, arith, false, true, ℕ, ℤ, ◌≤ℤ◌, ◌≤◌}
use sigame_server.Buzzer.Conn.{TrustLevel}
use sigame_server.Buzzer.Trust.{ladder}

-- How much a level distrusts the player.
abbrev pub distrust : TrustLevel → ℕ
distrust TrustLevel.full = 0
distrust TrustLevel.conservative = 1
distrust TrustLevel.server_only = 2
distrust TrustLevel.arrival_only = 3

strict_or_not : (b : Bool) (x y : ℤ) → y ≤ℤ x → distrust (ladder b x) ≤ distrust (ladder b y)
unfolding ladder
strict_or_not true x y h = ground arith
strict_or_not false x y h = ground arith

-- A lower score is not trusted more, and the strict ladder does not trust more than the other one.
pub ladder-distrust :
    (b : Bool) (x y : ℤ)
    → y ≤ℤ x
    → (distrust (ladder b x) ≤ distrust (ladder b y))
      × (distrust (ladder false x) ≤ distrust (ladder true x))
unfolding ladder
ladder-distrust b x y h = (strict_or_not b x y h, ground arith)
