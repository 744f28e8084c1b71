-- ===== src/Engine/Table/Draw.antt =====
-- internal/engine/engine.go, `randomCell`: what is drawn from the table is an open cell.
use sigame_server.Prelude.{
  All, All-append, All-map, Bool, List, Option, [], ap, arith, false, get_elem?, if◌then◌else◌,
  length, none, not, refl, some, subst, suc, sym, true, zero, ℕ, ◌&&◌, ◌++◌, ◌-◌, ◌<◌, ◌∙◌, ◌∷◌,
  ◌≡◌, ◌≤◌,
}
use sigame_server.Engine.State.{CellState, ThemeState}
use sigame_server.Engine.Game.{Game}
use sigame_server.Engine.Table.{
  has_playable_cells, next_sequential_cell, open_cell, open_cells, open_in_theme, random_cell,
  random_index,
}
use sigame_server.Engine.Table.Cells.{head?, is_some, next_sequential_cell-first}

-- The cell at this index of the theme is there and is open.
abbrev pub open_in : List CellState → ℕ → Bool
open_in cs q = elim (get_elem? cs q) [ none ↦ false | some c ↦ open_cell c ]

-- The cell of the table at these indexes is there, is open, and its theme is not removed.
abbrev pub open_at : List ThemeState → ℕ × ℕ → Bool
open_at ths (t, q) = elim (get_elem? ths t) [
  | none ↦ false
  | some th ↦ not th.removed && open_in th.questions q
]

abbrev OpenIn : ℕ → ℕ → List CellState → ℕ × ℕ → Type 0
OpenIn t q cs c = (c.0 ≡ t) × ((q ≤ c.1) × (open_in cs (c.1 - q) ≡ true))

sub_step : (q n : ℕ) → suc q ≤ n → n - q ≡ suc (n - suc q)
sub_step q n h = omega arith

OpenIn-step :
    (t q : ℕ) (x : CellState) (cs : List CellState) (c : ℕ × ℕ)
    → OpenIn t (suc q) cs c
    → OpenIn t q (x ∷ cs) c
OpenIn-step t q x cs c (e, (b, h)) =
    (e, (omega arith, subst (λ i. open_in (x ∷ cs) i ≡ true) (sym (sub_step q (c.1) b)) h))

open_in_here :
    (q : ℕ) (x : CellState) (cs : List CellState)
    → open_cell x ≡ true
    → open_in (x ∷ cs) (q - q) ≡ true
open_in_here q x cs h = subst (λ i. open_in (x ∷ cs) i ≡ true) (zero_eq q) h
  where
    zero_eq : (q : ℕ) → 0 ≡ q - q
    zero_eq q = omega arith

open_in_theme-step :
    (t q : ℕ) (x : CellState) (cs : List CellState) (b : Bool)
    → open_cell x ≡ b
    → All (OpenIn t q (x ∷ cs)) (open_in_theme t (suc q) cs)
    → All
        (OpenIn t q (x ∷ cs))
        (if b then (t, q) ∷ open_in_theme t (suc q) cs else open_in_theme t (suc q) cs)
open_in_theme-step t q x cs true h rest = ((refl, (omega arith, open_in_here q x cs h)), rest)
open_in_theme-step t q x cs false h rest = rest

open_in_theme-All : (t q : ℕ) (cs : List CellState) → All (OpenIn t q cs) (open_in_theme t q cs)
unfolding open_in_theme
open_in_theme-All t q [] = tt
open_in_theme-All t q (x ∷ cs) = open_in_theme-step t q x cs (open_cell x) refl (
    All-map (OpenIn t (suc q) cs) (OpenIn t q (x ∷ cs)) (OpenIn-step t q x cs)
      (open_in_theme t (suc q) cs) (open_in_theme-All t (suc q) cs))

abbrev OpenFrom : ℕ → List ThemeState → ℕ × ℕ → Type 0
OpenFrom t ths c = (t ≤ c.0) × (open_at ths (c.0 - t, c.1) ≡ true)

OpenFrom-step :
    (t : ℕ) (th : ThemeState) (ths : List ThemeState) (c : ℕ × ℕ)
    → OpenFrom (suc t) ths c
    → OpenFrom t (th ∷ ths) c
OpenFrom-step t th ths c (b, h) =
    (omega arith, subst (λ i. open_at (th ∷ ths) (i, c.1) ≡ true) (sym (sub_step t (c.0) b)) h)

zero_sub : (n : ℕ) → 0 ≡ n - n
zero_sub n = omega arith

sub_zero : (n : ℕ) → n - 0 ≡ n
sub_zero n = omega arith

OpenIn-OpenFrom :
    (t : ℕ) (th : ThemeState) (ths : List ThemeState)
    → th.removed ≡ false
    → (c : ℕ × ℕ) → OpenIn t 0 th.questions c
    → OpenFrom t (th ∷ ths) c
OpenIn-OpenFrom t th ths hr c (e, (b, h)) = (
  omega (arith, e),
  subst (λ i. open_at (th ∷ ths) (i, c.1) ≡ true) (zero_sub t ∙ ap (λ n. n - t) (sym e)) here,
)
  where
    here : not th.removed && open_in th.questions (c.1) ≡ true
    here = ground (arith, hr, h, sub_zero (c.1))

OpenFrom-shift :
    (t : ℕ) (th : ThemeState) (ths : List ThemeState)
    → All (OpenFrom (suc t) ths) (open_cells (suc t) ths)
    → All (OpenFrom t (th ∷ ths)) (open_cells (suc t) ths)
OpenFrom-shift t th ths =
    All-map (OpenFrom (suc t) ths) (OpenFrom t (th ∷ ths)) (OpenFrom-step t th ths)
      (open_cells (suc t) ths)

open_cells-step :
    (t : ℕ) (th : ThemeState) (ths : List ThemeState) (b : Bool)
    → th.removed ≡ b
    → All (OpenFrom (suc t) ths) (open_cells (suc t) ths)
    → All (OpenFrom t (th ∷ ths)) (
        if b
        then open_cells (suc t) ths
        else open_in_theme t 0 th.questions ++ open_cells (suc t) ths)
open_cells-step t th ths true h rest = OpenFrom-shift t th ths rest
open_cells-step t th ths false h rest =
    All-append (OpenFrom t (th ∷ ths)) (open_in_theme t 0 th.questions) (open_cells (suc t) ths)
      (All-map (OpenIn t 0 th.questions) (OpenFrom t (th ∷ ths)) (OpenIn-OpenFrom t th ths h)
        (open_in_theme t 0 th.questions) (open_in_theme-All t 0 th.questions))
      (OpenFrom-shift t th ths rest)

open_cells-All : (t : ℕ) (ths : List ThemeState) → All (OpenFrom t ths) (open_cells t ths)
unfolding open_cells
open_cells-All t [] = tt
open_cells-All t (th ∷ ths) = open_cells-step t th ths th.removed refl (open_cells-All (suc t) ths)

-- The drawn cell, if there is one, is an open cell of the table.
abbrev pub OpenDraw : List ThemeState → Option (ℕ × ℕ) → Type 0
OpenDraw ths none = false ≡ true
OpenDraw ths (some c) = open_at ths c ≡ true

All-get_elem? :
    (ths : List ThemeState) (cs : List (ℕ × ℕ)) (i : ℕ)
    → All (OpenFrom 0 ths) cs
    → i < length cs
    → OpenDraw ths (get_elem? cs i)
All-get_elem? ths [] i h b = ground arith
All-get_elem? ths ((t, q) ∷ cs) zero h b =
    subst (λ n. open_at ths (n, q) ≡ true) (sub_zero t) (h.0.1)
All-get_elem? ths (c ∷ cs) (suc i) h b = All-get_elem? ths cs i (h.1) (omega arith)

random_index_lt :
    (n : ℕ) (g : Game)
    → ((s m : ℕ) → 0 < m → (g.host.int_n s m).0 < m)
    → 0 < n
    → (random_index n g).0 < n
unfolding random_index
random_index_lt n g hb hn = ground (arith, hb g.rng n hn)

nonempty : (cs : List (ℕ × ℕ)) → is_some (head? cs) ≡ true → 0 < length cs
nonempty [] h = ground arith
nonempty (c ∷ cs) h = omega arith

-- Where the table has a playable cell, and the generator returns a number below its bound, the cell
-- drawn at random exists, is neither played nor removed, and its theme is not removed.
pub random_cell-open :
    (g : Game)
    → ((s m : ℕ) → 0 < m → (g.host.int_n s m).0 < m)
    → has_playable_cells g ≡ true
    → OpenDraw g.st.table ((random_cell g).0)
unfolding random_cell
random_cell-open g hb hp =
    All-get_elem? g.st.table (open_cells 0 g.st.table)
      ((random_index (length (open_cells 0 g.st.table)) g).0) (open_cells-All 0 g.st.table)
      (random_index_lt (length (open_cells 0 g.st.table)) g hb
        (nonempty (open_cells 0 g.st.table) (sym (ap is_some (found.1)) ∙ (sym (found.0) ∙ hp))))
  where
    found :
        (has_playable_cells g ≡ is_some (next_sequential_cell g))
        × (next_sequential_cell g ≡ head? (open_cells 0 g.st.table))
    found = next_sequential_cell-first g
