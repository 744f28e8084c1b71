-- ===== src/Buzzer/Floats.antt =====
-- The float64 arithmetic and the keyed hash that internal/buzzer calls, as an interface, and
-- internal/buzzer/rng.go, which stands on it.
use sigame_server.Prelude.{
  Bool, List, String, [], if◌then◌else◌, length, pos, suc, take, ℕ, ℤ, ◌*◌, ◌+◌, ◌-ℤ◌, ◌/◌, ◌^◌,
  ◌||◌, ◌∷◌,
}
use sigame_server.Pack.{Float64}

-- Go's runtime and standard library as far as the buzzer calls them. `num n d` is the float64
-- nearest to n / d, `hmac seed label` the digest in bytes, `to_int` the conversion `int(x)`, and
-- `slice_order` the indices of a list of keys in the order in which `sort.Slice`, which may swap equal
-- keys, leaves them.
pub record Floats : Type 0 where
  pub add : Float64 → Float64 → Float64
  pub sub : Float64 → Float64 → Float64
  pub mul : Float64 → Float64 → Float64
  pub div : Float64 → Float64 → Float64
  pub neg : Float64 → Float64
  pub lt : Float64 → Float64 → Bool
  pub le : Float64 → Float64 → Bool
  pub eq : Float64 → Float64 → Bool
  pub abs : Float64 → Float64
  pub max : Float64 → Float64 → Float64
  pub min : Float64 → Float64 → Float64
  pub hypot : Float64 → Float64 → Float64
  pub erfc : Float64 → Float64
  pub sqrt_two : Float64
  pub inf : Float64
  pub neg_inf : Float64
  pub is_nan : Float64 → Bool
  pub is_inf : Float64 → Bool
  pub of_int : ℤ → Float64
  pub to_int : Float64 → ℤ
  pub num : ℕ → ℕ → Float64
  pub hmac : String → String → List ℕ
  pub hex : List ℕ → String
  pub hex_text : String → String
  pub default_seed : Float64 → String
  pub slice_order : List Float64 → List ℕ

module _ ⦃fl : Floats⦄ where
  infixl 65 ◌⊕◌ ◌⊖◌
  infixl 70 ◌⊗◌ ◌⊘◌
  infix 50 ◌≺◌ ◌≼◌
  abbrev pub ◌⊕◌ : Float64 → Float64 → Float64
  x ⊕ y = fl.add x y

  abbrev pub ◌⊖◌ : Float64 → Float64 → Float64
  x ⊖ y = fl.sub x y

  abbrev pub ◌⊗◌ : Float64 → Float64 → Float64
  x ⊗ y = fl.mul x y

  abbrev pub ◌⊘◌ : Float64 → Float64 → Float64
  x ⊘ y = fl.div x y

  abbrev pub ◌≺◌ : Float64 → Float64 → Bool
  x ≺ y = fl.lt x y

  abbrev pub ◌≼◌ : Float64 → Float64 → Bool
  x ≼ y = fl.le x y

  -- A whole constant of the source.
  abbrev pub lit : ℕ → Float64
  lit n = fl.num n 1

  abbrev pub of_nat : ℕ → Float64
  of_nat n = fl.of_int (pos n)

  unfoldable pub clamp : Float64 → Float64 → Float64 → Float64
  clamp x lo hi = if x ≺ lo then lo else if hi ≺ x then hi else x

  unfoldable pub phi : Float64 → Float64
  phi x = fl.num 1 2 ⊗ fl.erfc (fl.neg x ⊘ fl.sqrt_two)

  -- The first eight bytes, most significant first.
  abbrev pub big_endian : List ℕ → ℕ
  big_endian bytes = go 8 bytes 0
    where
      go : ℕ → List ℕ → ℕ → ℕ
      go (suc n) (b ∷ bs) acc = go n bs (acc * 256 + b)
      go _ _ acc = acc

  unfoldable pub unit_float : String → String → Float64
  unit_float seed label = of_nat (big_endian (fl.hmac seed label) / 2 ^ 11) ⊘ fl.num (2 ^ 53) 1

  unfoldable pub arm_id : String → String
  arm_id seed = fl.hex (take 16 (fl.hmac seed "armId"))

  abbrev pub sum_from : Float64 → List Float64 → Float64
  sum_from acc [] = acc
  sum_from acc (w ∷ ws) = sum_from (acc ⊕ w) ws

  -- The index `int(u * float64(n))` into a list of n elements.
  abbrev pub scaled_index : Float64 → ℕ → ℤ
  scaled_index u n = fl.to_int (u ⊗ of_nat n)

  -- The first index at which the running share exceeds u; `i` counts, `n` is the number of weights.
  abbrev pub pick_from : ℕ → ℕ → Float64 → Float64 → Float64 → List Float64 → ℤ
  pick_from n i acc total u [] = pos n -ℤ pos 1
  pick_from n i acc total u (w ∷ ws) =
      let rest = pick_from n (suc i) (acc ⊕ w ⊘ total) total u ws in
      if u ≺ (acc ⊕ w ⊘ total) then pos i else rest

  unfoldable pub weighted_pick : List Float64 → Float64 → ℤ
  weighted_pick weights u =
      let total = sum_from (lit 0) weights in
      if total ≼ lit 0 || fl.is_nan total || fl.is_inf total
      then scaled_index u (length weights)
      else pick_from (length weights) 0 (lit 0) total u weights
