-- ===== src/Engine/Stake/Rounding.antt =====
-- internal/engine/stake.go, `roundUp`: the least multiple of the step.
use sigame_server.Prelude.{
  Bool, add64, ap, arith, false, if◌then◌else◌, int64, int64_of_range, int_eq, leb_ℤ, mul64, pos,
  refl, true, ℕ, ℤ, ◌%◌, ◌*ℤ◌, ◌*◌, ◌+ℤ◌, ◌+◌, ◌/◌, ◌<◌, ◌==◌, ◌||◌, ◌∙◌, ◌≡◌, ◌≤◌,
}
use sigame_server.Engine.Stake.{round_up}
use native.Mathlib.Nat.{div-le_self, mod-add-div, mod-lt, mul_comm}

-- r is a multiple of the step s, at least v and less than v + s.
abbrev pub NextMultiple : ℕ → ℕ → ℤ → Type 0
NextMultiple v s r = (k : ℕ) × ((r ≡ pos (k * s)) × ((v ≤ k * s) × (k * s < v + s)))

-- The rest and the multiples of a division, as one fact on numbers.
parts : (v s : ℕ) → v % s + v / s * s ≡ v
parts v s = ap (λ n. v % s + n) (mul_comm (v / s) s) ∙ mod-add-div v s

add64_one : (q : ℕ) → q < 9223372036854775807 → add64 (pos q) (pos 1) ≡ pos (q + 1)
unfolding ◌+ℤ◌ int64
add64_one q h = ground arith

mul_pos : (a b : ℕ) → pos a *ℤ pos b ≡ pos (a * b)
unfolding ◌*ℤ◌
mul_pos a b = ground arith

mul64_pos : (a b : ℕ) → a * b < 9223372036854775808 → mul64 (pos a) (pos b) ≡ pos (a * b)
mul64_pos a b h = ap int64 (mul_pos a b) ∙ int64_of_range (pos (a * b)) (h, omega arith)

suc_mul : (q s : ℕ) → (q + 1) * s ≡ q * s + s
suc_mul q s = ground arith

quotient_lt : (v s : ℕ) → 1 < s → v + s < 9223372036854775808 → v / s < 9223372036854775807
quotient_lt v s hs hr = ground (arith, div-le_self v s)

-- For an amount of zero or more and a step of at least two, whose sum is in the range of the
-- integers, rounding up gives a multiple of the step that is at least the amount and less than one
-- step above it.
pub round_up-NextMultiple :
    (v s : ℕ) → 1 < s → v + s < 9223372036854775808 → NextMultiple v s (round_up (pos v) (pos s))
unfolding round_up
round_up-NextMultiple v s hs hr = by_test (leb_ℤ (pos s) (pos 1) || pos (v % s) == pos 0) refl
  where
    q : ℕ
    q = v / s

    up : mul64 (add64 (pos q) (pos 1)) (pos s) ≡ pos ((q + 1) * s)
    up =
        ap (λ x. mul64 x (pos s)) (add64_one q (quotient_lt v s hs hr))
        ∙ mul64_pos (q + 1) s (ground (arith, suc_mul q s, parts v s, hr))

    by_test :
        (b : Bool)
        → (leb_ℤ (pos s) (pos 1) || pos (v % s) == pos 0) ≡ b
        → NextMultiple v s (if b then pos v else mul64 (add64 (pos q) (pos 1)) (pos s))
    by_test true e = (
      q,
      (
        ap pos (ground (arith, parts v s, hs, e)),
        (ground (arith, parts v s, hs, e), ground (arith, parts v s, hs, e)),
      ),
    )
    by_test false e = (
      q + 1,
      (
        up,
        (
          ground (arith, suc_mul q s, parts v s, e, mod-lt v {m = s} (omega (arith, hs))),
          ground (arith, suc_mul q s, parts v s, e),
        ),
      ),
    )
