-- ===== src/Engine/Table/Cells.antt =====
-- internal/engine/engine.go: the open cells of the table, found in order and drawn at random.
use sigame_server.Prelude.{
  Bool, List, Option, [], any, arith, false, none, refl, some, suc, sym, true, ℕ, ◌++◌, ◌∷◌, ◌≡◌,
}
use sigame_server.Engine.State.{CellState, ThemeState}
use sigame_server.Engine.Table.{
  first_cell, first_open, has_open_cell, has_playable_cells, next_sequential_cell, open_cell,
  open_cells, open_in_theme,
}
use sigame_server.Engine.Game.{Game}

abbrev pub head? {ℓ} : {A : Type ℓ} → List A → Option A
head? [] = none
head? (x ∷ xs) = some x

abbrev pub is_some {ℓ} : {A : Type ℓ} → Option A → Bool
is_some none = false
is_some (some a) = true

abbrev pub or_else {ℓ} : {A : Type ℓ} → Option A → Option A → Option A
or_else none o = o
or_else (some a) o = some a

head?-append : {A : Type 0} (xs ys : List A) → head? (xs ++ ys) ≡ or_else (head? xs) (head? ys)
head?-append [] ys = refl
head?-append (x ∷ xs) ys = refl

abbrev in_theme : ℕ → Option ℕ → Option (ℕ × ℕ)
in_theme t none = none
in_theme t (some q) = some (t, q)

head?-open_in_theme :
    (t q : ℕ) (cs : List CellState) → head? (open_in_theme t q cs) ≡ in_theme t (first_open q cs)
unfolding open_in_theme first_open
head?-open_in_theme t q [] = refl
head?-open_in_theme t q (c ∷ cs) = ground (arith, head?-open_in_theme t (suc q) cs)

head?-open_cells : (t : ℕ) (ths : List ThemeState) → head? (open_cells t ths) ≡ first_cell t ths
unfolding open_cells first_cell
head?-open_cells t [] = refl
head?-open_cells t (th ∷ ths) = ground (
  arith,
  head?-open_in_theme t 0 th.questions,
  head?-open_cells (suc t) ths,
  head?-append (open_in_theme t 0 th.questions) (open_cells (suc t) ths),
)

any-open_cell : (q : ℕ) (cs : List CellState) → any open_cell cs ≡ is_some (first_open q cs)
unfolding first_open
any-open_cell q [] = refl
any-open_cell q (c ∷ cs) = ground (arith, any-open_cell (suc q) cs)

any-has_open_cell :
    (t : ℕ) (ths : List ThemeState) → any has_open_cell ths ≡ is_some (first_cell t ths)
unfolding first_cell
any-has_open_cell t [] = refl
any-has_open_cell t (th ∷ ths) =
    ground (arith, any-open_cell 0 th.questions, any-has_open_cell (suc t) ths)

-- The cells that can be played are looked for in three ways, and they agree: the test for a
-- playable cell holds where the search in order finds one, and the search in order finds the first
-- of the cells that the random choice draws from.
pub next_sequential_cell-first :
    (g : Game)
    → (has_playable_cells g ≡ is_some (next_sequential_cell g))
      × (next_sequential_cell g ≡ head? (open_cells 0 g.st.table))
unfolding has_playable_cells next_sequential_cell
next_sequential_cell-first g = (any-has_open_cell 0 g.st.table, sym (head?-open_cells 0 g.st.table))
