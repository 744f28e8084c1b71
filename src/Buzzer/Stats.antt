-- ===== src/Buzzer/Stats.antt =====
-- internal/buzzer/conn.go: the median and the median absolute deviation.
use sigame_server.Prelude.{
  Bool, List, get_or, if◌then◌else◌, length, map, nat_beq, not, sort_by, ◌%◌, ◌&&◌, ◌-◌, ◌/◌, ◌||◌,
}
use sigame_server.Pack.{Float64}
use sigame_server.Buzzer.Floats.{Floats, lit, ◌≺◌, ◌⊕◌, ◌⊖◌, ◌⊘◌}

module _ ⦃fl : Floats⦄ where
  -- The order of `sort.Float64s`, where a NaN comes first.
  abbrev pub float_less : Float64 → Float64 → Bool
  float_less x y = x ≺ y || fl.is_nan x && not (fl.is_nan y)

  unfoldable pub median : List Float64 → Float64
  median xs =
      let n = length xs in
      let sorted = sort_by float_less xs in
      if nat_beq n 0
      then lit 0
      else if nat_beq (n % 2) 1
      then get_or sorted (n / 2) (lit 0)
      else (get_or sorted (n / 2 - 1) (lit 0) ⊕ get_or sorted (n / 2) (lit 0)) ⊘ lit 2

  unfoldable pub mad_raw : List Float64 → Float64
  unfolding median
  mad_raw xs =
      if nat_beq (length xs) 0
      then lit 0
      else let m = median xs in median (map (λ x. fl.abs (x ⊖ m)) (sort_by float_less xs))
