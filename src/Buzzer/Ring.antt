-- ===== src/Buzzer/Ring.antt =====
-- internal/buzzer/conn.go: the ring buffer of the last samples.
pub mod Window
use sigame_server.Prelude.{
  List, Option, [], get_elem?, if◌then◌else◌, leb, length, ltb, modify_at, nat_beq, none, some, suc,
  zero, ℕ, ◌%◌, ◌+◌, ◌-◌, ◌∷◌,
}

pub record Ring {ℓ} (A : Type ℓ) : Type ℓ where
  pub buf : List A
  pub count : ℕ
  pub head : ℕ

abbrev pub replicate {ℓ} : {A : Type ℓ} → ℕ → A → List A
replicate zero x = []
replicate (suc n) x = x ∷ replicate n x

-- Go's `make([]T, size)` fills the buffer with the zero value.
unfoldable pub new_ring {ℓ} : {A : Type ℓ} → ℕ → A → Ring A
new_ring size zero_value = record { buf = replicate size zero_value; count = 0; head = 0 }

-- The index `(head - back) % size`, moved up by the size where Go's remainder is negative.
abbrev pub wrapped : ℕ → ℕ → ℕ → ℕ
wrapped head back size =
    if leb back head
    then (head - back) % size
    else let r = (back - head) % size in if nat_beq r 0 then 0 else size - r

module _ {ℓ} {A : Type ℓ} where
  unfoldable pub push : A → Ring A → Ring A
  push v r = record {
    buf = modify_at r.buf r.head (λ old. v);
    head = (r.head + 1) % length r.buf;
    count = if ltb r.count (length r.buf) then r.count + 1 else r.count;
  }

  -- The i-th newest element; an empty buffer has none, where the source would fault.
  unfoldable pub newest : ℕ → Ring A → Option A
  newest i r = get_elem? r.buf (wrapped r.head (1 + i) (length r.buf))

  unfoldable pub reset : Ring A → Ring A
  reset r = record r { count = 0; head = 0 }

  abbrev pub add_some : Option A → List A → List A
  add_some none xs = xs
  add_some (some x) xs = x ∷ xs

  -- The elements that a loop over `newest(i)` visits, n of them from the i-th.
  unfoldable pub visit : ℕ → ℕ → Ring A → List A
  visit zero i r = []
  visit (suc n) i r = add_some (newest i r) (visit n (suc i) r)

  -- The whole ring, newest first: `for i := 0; i < r.n; i++`.
  unfoldable pub elements : Ring A → List A
  elements r = visit r.count 0 r
