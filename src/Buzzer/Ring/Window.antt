-- ===== src/Buzzer/Ring/Window.antt =====
-- internal/buzzer/conn.go: the ring buffer keeps the last values that were pushed.
use sigame_server.Prelude.{
  Bool-cases, List, Option, [], ap, arith, false, get_elem?, if◌then◌else◌, inl, inr, leb, length,
  ltb, modify_at, nat_beq, none, refl, some, suc, sym, take, true, zero, ℕ, ◌%◌, ◌+◌, ◌-◌, ◌<◌, ◌∙◌,
  ◌∷◌, ◌≡◌, ◌≢◌, ◌≤◌, ◌⊎◌,
}
use native.Mathlib.Nat.{mod_self, mod-eq_of_lt}
use sigame_server.Buzzer.Ring.{Ring, add_some, elements, newest, push, visit, wrapped}

module _ {ℓ} {A : Type ℓ} where
  -- The head is a place of the buffer and the count is at most its size.
  abbrev pub IsRing : Ring A → Type 0
  IsRing r = (r.head < length r.buf) × (r.count ≤ length r.buf)

  length-modify_at : (xs : List A) (i : ℕ) (f : A → A) → length (modify_at xs i f) ≡ length xs
  length-modify_at [] i f = refl
  length-modify_at (x ∷ xs) zero f = refl
  length-modify_at (x ∷ xs) (suc i) f = ap suc (length-modify_at xs i f)

  get_elem?-modify_at_same :
      (xs : List A) (i : ℕ) (v : A)
      → i < length xs
      → get_elem? (modify_at xs i (λ old. v)) i ≡ some v
  get_elem?-modify_at_same [] i v h = ground arith
  get_elem?-modify_at_same (x ∷ xs) zero v h = refl
  get_elem?-modify_at_same (x ∷ xs) (suc i) v h = get_elem?-modify_at_same xs i v (omega (arith, h))

  get_elem?-modify_at_other :
      (xs : List A) (i k : ℕ) (f : A → A) → i ≢ k → get_elem? (modify_at xs i f) k ≡ get_elem? xs k
  get_elem?-modify_at_other [] i k f h = refl
  get_elem?-modify_at_other (x ∷ xs) zero zero f h = ground arith
  get_elem?-modify_at_other (x ∷ xs) zero (suc k) f h = refl
  get_elem?-modify_at_other (x ∷ xs) (suc i) zero f h = refl
  get_elem?-modify_at_other (x ∷ xs) (suc i) (suc k) f h =
      get_elem?-modify_at_other xs i k f (λ p. h (ap suc p))

  get_elem?-Some : (xs : List A) (i : ℕ) → i < length xs → (a : A) × (get_elem? xs i ≡ some a)
  get_elem?-Some [] i h = ground arith
  get_elem?-Some (x ∷ xs) zero h = (x, refl)
  get_elem?-Some (x ∷ xs) (suc i) h = get_elem?-Some xs i (omega (arith, h))

-- The place of a value that is `back` steps behind the head.
wrapped_near :
    (head back size : ℕ) → head < size → back ≤ head → wrapped head back size ≡ head - back
wrapped_near head back size h k = ground (arith, mod-eq_of_lt {n = head - back} {m = size})

wrapped_far :
    (head back size : ℕ)
    → head < back
    → back - head < size
    → wrapped head back size ≡ size + head - back
wrapped_far head back size h k = ground (arith, mod-eq_of_lt {n = back - head} {m = size})

next_head :
    (head size : ℕ)
    → head < size
    → (head + 1) % size ≡ (if nat_beq (head + 1) size then 0 else head + 1)
next_head head size h = ground (arith, mod-eq_of_lt {n = head + 1} {m = size}, mod_self size)

wrapped_next_zero : (head size : ℕ) → head < size → wrapped ((head + 1) % size) 1 size ≡ head
wrapped_next_zero head size h =
    ground (arith, next_head head size h, wrapped_near (head + 1) 1 size, wrapped_far 0 1 size)

wrapped_full :
    (head back size : ℕ)
    → head < size
    → back ≤ size
    → back ≡ head + size
    → wrapped head back size ≡ (
        if leb back head
        then head - back
        else if nat_beq back (head + size)
        then 0
        else size + head - back)
wrapped_full head back size h b p = ground (arith, mod_self size)

wrapped_value :
    (head back size : ℕ)
    → head < size
    → 0 < back
    → back ≤ size
    → wrapped head back size ≡ (
        if leb back head
        then head - back
        else if nat_beq back (head + size)
        then 0
        else size + head - back)
wrapped_value head back size h k b = elim (Bool-cases (leb back head)) [
  | inl p ↦ ground (arith, wrapped_near head back size h)
  | inr p ↦ elim (Bool-cases (nat_beq back (head + size))) [
    | inl q ↦ wrapped_full head back size h b (ground arith)
    | inr q ↦ ground (arith, wrapped_far head back size)
  ]
]

wrapped_next_suc :
    (head i size : ℕ)
    → head < size
    → i + 1 < size
    → wrapped ((head + 1) % size) (1 + suc i) size ≡ wrapped head (1 + i) size
wrapped_next_suc head i size h k = elim (Bool-cases (nat_beq (head + 1) size)) [
  | inl p ↦
      ap (λ n. wrapped n (1 + suc i) size) (ground (arith, next_head head size h))
      ∙ wrapped_value 0 (1 + suc i) size (omega (arith, h)) (omega arith) (omega (arith, k))
      ∙ ground (arith, wrapped_value head (1 + i) size h)
  | inr p ↦
      ap (λ n. wrapped n (1 + suc i) size) (ground (arith, next_head head size h))
      ∙ wrapped_value (head + 1) (1 + suc i) size (ground (arith, h)) (omega arith)
          (omega (arith, k))
      ∙ ground (arith, wrapped_value head (1 + i) size h)
]

wrapped_lt : (head i size : ℕ) → head < size → i < size → wrapped head (1 + i) size < size
wrapped_lt head i size h k = ground (arith, wrapped_value head (1 + i) size h)

wrapped_ne : (head i size : ℕ) → head < size → i + 1 < size → head ≢ wrapped head (1 + i) size
wrapped_ne head i size h k p = ground (arith, wrapped_value head (1 + i) size h)

module _ {ℓ} {A : Type ℓ} where
  push-IsRing : (v : A) (r : Ring A) → IsRing r → IsRing (push v r)
  unfolding push
  push-IsRing v r h =
      ground
        (arith, length-modify_at r.buf r.head (λ old. v), next_head r.head (length r.buf) (h.0))

  newest-push_zero : (v : A) (r : Ring A) → IsRing r → newest 0 (push v r) ≡ some v
  unfolding newest push
  newest-push_zero v r h =
      let ys = modify_at r.buf r.head (λ old. v) in
      ap (λ n. get_elem? ys (wrapped ((r.head + 1) % length r.buf) 1 n))
        (length-modify_at r.buf r.head (λ old. v))
      ∙ ap (get_elem? ys) (wrapped_next_zero r.head (length r.buf) (h.0))
      ∙ get_elem?-modify_at_same r.buf r.head v (h.0)

  newest-push-suc :
      (v : A) (r : Ring A) (i : ℕ)
      → IsRing r
      → i + 1 < length r.buf
      → newest (suc i) (push v r) ≡ newest i r
  unfolding newest push
  newest-push-suc v r i h k =
      let ys = modify_at r.buf r.head (λ old. v) in
      ap (λ n. get_elem? ys (wrapped ((r.head + 1) % length r.buf) (1 + suc i) n))
        (length-modify_at r.buf r.head (λ old. v))
      ∙ ap (get_elem? ys) (wrapped_next_suc r.head i (length r.buf) (h.0) k)
      ∙ get_elem?-modify_at_other r.buf r.head (wrapped r.head (1 + i) (length r.buf)) (λ old. v)
          (wrapped_ne r.head i (length r.buf) (h.0) k)

  newest-Some : (i : ℕ) (r : Ring A) → IsRing r → i < length r.buf → (a : A) × (newest i r ≡ some a)
  unfolding newest
  newest-Some i r h k =
      get_elem?-Some r.buf (wrapped r.head (1 + i) (length r.buf))
        (wrapped_lt r.head i (length r.buf) (h.0) k)

  visit-push-suc :
      (v : A) (r : Ring A) (n i : ℕ)
      → IsRing r
      → n + i < length r.buf
      → visit n (suc i) (push v r) ≡ visit n i r
  unfolding visit
  visit-push-suc v r zero i h k = refl
  visit-push-suc v r (suc n) i h k =
      ap (λ o. add_some o (visit n (suc (suc i)) (push v r)))
        (newest-push-suc v r i h (omega (arith, k)))
      ∙ ap (add_some (newest i r)) (visit-push-suc v r n (suc i) h (omega (arith, k)))

  take-add_some :
      (o : Option A) (n : ℕ) (xs : List A) (a : A)
      → o ≡ some a
      → take (suc n) (add_some o xs) ≡ add_some o (take n xs)
  take-add_some none n xs a h = ground arith
  take-add_some (some x) n xs a h = refl

  -- A shorter visit is the front of a longer one.
  take-visit :
      (r : Ring A) (n k i : ℕ)
      → IsRing r
      → k ≤ n
      → n + i ≤ length r.buf
      → take k (visit n i r) ≡ visit k i r
  unfolding visit
  take-visit r n zero i h le fits = refl
  take-visit r zero (suc k) i h le fits = ground arith
  take-visit r (suc n) (suc k) i h le fits =
      let found = newest-Some i r h (omega (arith, fits)) in
      take-add_some (newest i r) k (visit n (suc i) r) (found.0) (found.1)
      ∙ ap (add_some (newest i r))
          (take-visit r n k (suc i) h (omega (arith, le)) (omega (arith, fits)))

  visit-push :
      (v : A) (r : Ring A) (n : ℕ)
      → IsRing r
      → n < length r.buf
      → visit (suc n) 0 (push v r) ≡ v ∷ visit n 0 r
  unfolding visit
  visit-push v r n h k =
      ap (λ o. add_some o (visit n 1 (push v r))) (newest-push_zero v r h)
      ∙ ap (λ xs. v ∷ xs) (visit-push-suc v r n 0 h (omega (arith, k)))

  take-length : (n : ℕ) (xs : List A) → length xs ≤ n → take n xs ≡ xs
  take-length zero [] h = refl
  take-length zero (x ∷ xs) h = ground arith
  take-length (suc n) [] h = refl
  take-length (suc n) (x ∷ xs) h = ap (λ ys. x ∷ ys) (take-length n xs (omega (arith, h)))

  length-visit : (n i : ℕ) (r : Ring A) → length (visit n i r) ≤ n
  unfolding visit
  length-visit zero i r = omega arith
  length-visit (suc n) i r = ground (arith, length-visit n (suc i) r)

  -- The values after a push, when n of the old ones stay.
  push_view :
      (v : A) (r : Ring A) (n m : ℕ)
      → IsRing r
      → length r.buf ≡ suc m
      → (if ltb r.count (length r.buf) then r.count + 1 else r.count) ≡ suc n
      → n ≤ m
      → take m (visit r.count 0 r) ≡ visit n 0 r
      → visit (if ltb r.count (length r.buf) then r.count + 1 else r.count) 0 (push v r)
        ≡ take (length r.buf) (v ∷ visit r.count 0 r)
  push_view v r n m h size counted fits stay =
      ap (λ k. visit k 0 (push v r)) counted
      ∙ visit-push v r n h (ground (arith, size))
      ∙ ap (λ xs. v ∷ xs) (sym stay)
      ∙ sym (ap (λ s. take s (v ∷ visit r.count 0 r)) size)

  -- A push keeps the buffer a ring, and puts the value before the values that were there; the
  -- oldest one goes when the buffer is full.
  pub elements-push :
      (v : A) (r : Ring A)
      → IsRing r
      → IsRing (push v r) × (elements (push v r) ≡ take (length r.buf) (v ∷ elements r))
  unfolding elements push
  elements-push v r h = (push-IsRing v r h, by_room (Bool-cases (ltb r.count (length r.buf))))
    where
      m : ℕ
      m = length r.buf - 1

      by_room :
          (ltb r.count (length r.buf) ≡ true) ⊎ (ltb r.count (length r.buf) ≡ false)
          → visit (if ltb r.count (length r.buf) then r.count + 1 else r.count) 0 (push v r)
            ≡ take (length r.buf) (v ∷ visit r.count 0 r)
      by_room (inl p) =
          push_view v r r.count m h (omega (arith, h.0)) (ground arith) (ground arith)
            (take-length m (visit r.count 0 r) (ground (arith, length-visit r.count 0 r)))
      by_room (inr p) =
          push_view v r m m h (omega (arith, h.0)) (ground (arith, h)) (omega arith)
            (take-visit r r.count m 0 h (ground arith) (omega (arith, h.1)))
