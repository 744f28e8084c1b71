-- ===== src/Engine/Table/Prices.antt =====
-- internal/engine/engine.go, `stakeStep`: the step of a stake.
use sigame_server.Prelude.{
  Bool, ap, arith, false, if◌then◌else◌, int64, leb_ℤ, ltb_ℤ, mul64, pos, refl, subst, suc, sym,
  true, zero, ℕ, ℤ, ◌*ℤ◌, ◌*◌, ◌<◌, ◌≡◌, ◌≤◌,
}
use sigame_server.Engine.Table.{round_min_max, stake_step, step_fuel, step_loop}
use sigame_server.Engine.Game.{Game}
use native.Mathlib.Nat.{mul_assoc}

-- The powers of ten.
abbrev pub pow10 : ℕ → ℕ
pow10 zero = 1
pow10 (suc k) = 10 * pow10 k

-- r is s times a power of ten, at most m, and ten times r is above m.
abbrev pub LargestPower : ℕ → ℕ → ℤ → Type 0
LargestPower s m r =
    (k : ℕ) × ((r ≡ pos (s * pow10 k)) × ((s * pow10 k ≤ m) × (m < s * pow10 k * 10)))

mul64_ten : (s : ℕ) → s < 922337203685477580 → mul64 (pos s) (pos 10) ≡ pos (s * 10)
unfolding ◌*ℤ◌ int64
mul64_ten s h = ground arith

LargestPower-step : (s m : ℕ) (r : ℤ) → LargestPower (s * 10) m r → LargestPower s m r
LargestPower-step s m r (k, h) =
    (suc k, subst (λ n. (r ≡ pos n) × ((n ≤ m) × (m < n * 10))) (mul_assoc s 10 (pow10 k)) h)

LargestPower-once :
    (b : Bool) (s m : ℕ) (more : ℤ)
    → leb_ℤ (pos (s * 10)) (pos m) ≡ b
    → s ≤ m
    → (s * 10 ≤ m → LargestPower (s * 10) m more)
    → LargestPower s m (if b then more else pos s)
LargestPower-once true s m more h hs next = LargestPower-step s m more (next (ground arith))
LargestPower-once false s m more h hs next =
    (0, (ap pos (omega arith), (omega arith, ground arith)))

step_loop-LargestPower :
    (fuel m s : ℕ)
    → m < 922337203685477580
    → s ≤ m
    → m < s * pow10 fuel
    → LargestPower s m (step_loop fuel (pos m) (pos s))
unfolding step_loop
step_loop-LargestPower zero m s hm hs hf = ground arith
step_loop-LargestPower (suc fuel) m s hm hs hf =
    subst (λ t. LargestPower s m (if leb_ℤ t (pos m) then step_loop fuel (pos m) t else pos s))
      (sym (mul64_ten s (omega arith)))
      (LargestPower-once (leb_ℤ (pos (s * 10)) (pos m)) s m (step_loop fuel (pos m) (pos (s * 10)))
        refl hs
        (λ le.
          step_loop-LargestPower fuel m (s * 10) hm le
            (subst (λ n. m < n) (sym (mul_assoc s 10 (pow10 fuel))) hf)))

-- The step is a power of ten.
abbrev pub StepOf : ℕ → ℤ → Type 0
StepOf m r = (k : ℕ) × ((r ≡ pos (pow10 k)) × ((pow10 k ≤ m) × (m < pow10 k * 10)))

LargestPower-StepOf : (m : ℕ) (r : ℤ) → LargestPower 1 m r → StepOf m r
LargestPower-StepOf m r (k, h) =
    (k, subst (λ n. (r ≡ pos n) × ((n ≤ m) × (m < n * 10))) (omega arith) h)

-- Where the least positive price of the round is below 922337203685477580, so that ten times a
-- smaller number does not wrap around, the step of a stake is the largest power of ten that is at
-- most that price: the loop ends within its fuel, and ten times the step is above the price.
pub stake_step-StepOf :
    (g : Game) (m : ℕ)
    → (round_min_max g).0 ≡ pos m
    → 0 < m
    → m < 922337203685477580
    → StepOf m (stake_step g)
unfolding stake_step
stake_step-StepOf g m h hp hm =
    subst (λ p. StepOf m (if ltb_ℤ p (pos 10) then pos 1 else step_loop step_fuel p (pos 1)))
      (sym h) (by_test (ltb_ℤ (pos m) (pos 10)) refl)
  where
    by_test :
        (b : Bool)
        → ltb_ℤ (pos m) (pos 10) ≡ b
        → StepOf m (if b then pos 1 else step_loop step_fuel (pos m) (pos 1))
    by_test true e = (0, (refl, (omega arith, ground arith)))
    by_test false e =
        LargestPower-StepOf m (step_loop step_fuel (pos m) (pos 1))
          (step_loop-LargestPower step_fuel m 1 hm hp (omega arith))
