-- ===== src/Buzzer/Decide/Draw.antt =====
-- internal/buzzer/arm.go: every draw hits a press of the tie.
use sigame_server.Prelude.{
  All, Bool, List, [], any, ap, arith, false, if◌then◌else◌, inl, inr, insert_by, int_eq, keep,
  length, ltb_ℤ, negsuc, pos, refl, sort_by, string_eq, subst, suc, sym, true, ℕ, ℤ, ◌+◌, ◌-ℤ◌, ◌-◌,
  ◌<◌, ◌==◌, ◌∷◌, ◌≡◌, ◌⊎◌,
}
use sigame_server.Pack.{Float64}
use sigame_server.Buzzer.Floats.{
  Floats, lit, pick_from, scaled_index, sum_from, weighted_pick, ◌≺◌, ◌⊕◌, ◌⊘◌,
}
use sigame_server.Buzzer.Arm.{Press}
use sigame_server.Buzzer.Decide.{argmax, best_from, least_by, least_key, likelihood, weights_from}

-- An index of a list with n elements.
abbrev pub Below : ℤ → ℕ → Type 0
Below (pos k) n = k < n
Below (negsuc k) n = 1 < 0

module _ {ℓ κ} {A : Type ℓ} (P : A → Type κ) where
  All-if : (b : Bool) (x : A) (xs : List A) → P x → All P xs → All P (if b then x ∷ xs else xs)
  All-if true x xs h k = (h, k)
  All-if false x xs h k = k

  pub All-keep : (p : A → Bool) (xs : List A) → All P xs → All P (keep p xs)
  All-keep p [] h = tt
  All-keep p (x ∷ xs) h = All-if (p x) x (keep p xs) (h.0) (All-keep p xs (h.1))

  All-choice : (b : Bool) (xs ys : List A) → All P xs → All P ys → All P (if b then xs else ys)
  All-choice true xs ys h k = h
  All-choice false xs ys h k = k

  All-insert_by :
      (less : A → A → Bool) (x : A) (xs : List A) → P x → All P xs → All P (insert_by less x xs)
  unfolding insert_by
  All-insert_by less x [] h k = (h, tt)
  All-insert_by less x (y ∷ ys) h k =
      All-choice (less y x) (y ∷ insert_by less x ys) (x ∷ y ∷ ys)
        (k.0, All-insert_by less x ys h (k.1)) (h, k)

  pub All-sort_by : (less : A → A → Bool) (xs : List A) → All P xs → All P (sort_by less xs)
  unfolding sort_by
  All-sort_by less [] h = tt
  All-sort_by less (x ∷ xs) h =
      All-insert_by less x (sort_by less xs) (h.0) (All-sort_by less xs (h.1))

if-lt : (b : Bool) (m n top : ℕ) → m < top → n < top → (if b then m else n) < top
if-lt true m n top h k = h
if-lt false m n top h k = k

if-Below :
    (b : Bool) (m n : ℤ) (top : ℕ) → Below m top → Below n top → Below (if b then m else n) top
if-Below true m n top h k = h
if-Below false m n top h k = k

module _ ⦃fl : Floats⦄ where
  -- The first index at which the greatest weight stands is one of the list.
  best_from-bound :
      (i best : ℕ) (w : Float64) (ws : List Float64)
      → best < i
      → best_from i best w ws < i + length ws
  best_from-bound i best w [] h = omega (arith, h)
  best_from-bound i best w (v ∷ vs) h =
      if-lt (w ≺ v) (best_from (suc i) i v vs) (best_from (suc i) best w vs) (i + suc (length vs))
        (omega (arith, best_from-bound (suc i) i v vs (omega arith)))
        (omega (arith, best_from-bound (suc i) best w vs (omega (arith, h))))

  pub argmax-bound : (ws : List Float64) → 0 < length ws → argmax ws < length ws
  argmax-bound [] h = h
  argmax-bound (w ∷ ws) h = omega (arith, best_from-bound 1 0 w ws (omega arith))

  last-Below : (m : ℕ) → 0 < m → Below (pos m -ℤ pos 1) m
  unfolding ◌-ℤ◌
  last-Below m p = subst (λ x. Below x m) (sym before) (omega arith)
    where
      before : pos m -ℤ pos 1 ≡ pos (m - 1)
      before = ground arith

  pick_from-Below :
      (n i : ℕ) (acc total u : Float64) (ws : List Float64)
      → 0 < n
      → i + length ws ≡ n
      → Below (pick_from n i acc total u ws) n
  pick_from-Below n i acc total u [] h k = last-Below n h
  pick_from-Below n i acc total u (w ∷ ws) h k =
      if-Below (u ≺ (acc ⊕ w ⊘ total)) (pos i) (pick_from n (suc i) (acc ⊕ w ⊘ total) total u ws) n
        (omega (arith, k))
        (pick_from-Below n (suc i) (acc ⊕ w ⊘ total) total u ws h (omega (arith, k)))

  -- The draw u hits an index of every non-empty list, as a number of [0, 1) does.
  abbrev pub Draws : Float64 → Type 0
  Draws u = (n : ℕ) → 0 < n → Below (scaled_index u n) n

  pub weighted_pick-Below :
      (ws : List Float64) (u : Float64)
      → Draws u
      → 0 < length ws
      → Below (weighted_pick ws u) (length ws)
  unfolding weighted_pick
  weighted_pick-Below ws u h k =
      if-Below _ _ _ (length ws) (h (length ws) k)
        (pick_from-Below (length ws) 0 (lit 0) (sum_from (lit 0) ws) u ws k (omega arith))

  length-weights_from : (i : ℕ) (tie ps : List Press) → length (weights_from i tie ps) ≡ length ps
  length-weights_from i tie [] = refl
  length-weights_from i tie (p ∷ ps) = ap suc (length-weights_from (suc i) tie ps)

  pub length-likelihood : (tie : List Press) → length (likelihood tie) ≡ length tie
  unfolding likelihood
  length-likelihood tie = length-weights_from 0 tie tie

-- The least key is the first one, or the key of a press of the list.
least_key-found :
    (key : Press → ℤ) (ps : List Press) (best : ℤ)
    → (least_key key best ps ≡ best) ⊎ (any (λ q. key q == least_key key best ps) ps ≡ true)
least_key-found key [] best = inl refl
least_key-found key (p ∷ ps) best =
    step (ltb_ℤ (key p) best) (least_key-found key ps (if ltb_ℤ (key p) best then key p else best))
  where
    any_first : (x y : ℤ) (r : Bool) → x ≡ y → (if y == x then true else r) ≡ true
    any_first x y r q = ground (arith, int_eq.same_iff y x)

    any_later : (b r : Bool) → r ≡ true → (if b then true else r) ≡ true
    any_later true r q = refl
    any_later false r q = q

    step :
        (b : Bool)
        → (least_key key (if b then key p else best) ps ≡ (if b then key p else best))
          ⊎ (any (λ q. key q == least_key key (if b then key p else best) ps) ps ≡ true)
        → (least_key key (if b then key p else best) ps ≡ best)
          ⊎ (any (λ q. key q == least_key key (if b then key p else best) ps) (p ∷ ps) ≡ true)
    step true (inl q) = inr (any_first _ _ _ q)
    step false (inl q) = inl q
    step b (inr q) = inr (any_later _ _ q)

keep-some : (t : Press → Bool) (ps : List Press) → any t ps ≡ true → 0 < length (keep t ps)
keep-some t [] h = ground arith
keep-some t (p ∷ ps) h = ground (arith, h, keep-some t ps)

pub least_by-some :
    (key : Press → ℤ) (p : Press) (ps : List Press) → 0 < length (least_by key (p ∷ ps))
least_by-some key p ps =
    keep-some (λ q. key q == least_key key (key p) (p ∷ ps)) (p ∷ ps)
      (found (least_key-found key (p ∷ ps) (key p)))
  where
    found :
        (least_key key (key p) (p ∷ ps) ≡ key p)
          ⊎ (any (λ q. key q == least_key key (key p) (p ∷ ps)) (p ∷ ps) ≡ true)
        → any (λ q. key q == least_key key (key p) (p ∷ ps)) (p ∷ ps) ≡ true
    found (inl e) = ground (arith, int_eq.same_iff (key p) (least_key key (key p) (p ∷ ps)), e)
    found (inr e) = e
