-- ===== src/Engine/Table.antt =====
-- internal/engine/engine.go, "pack helpers" and the cells of the table.
pub mod Prices
pub mod Draw
pub mod Cells
pub mod Scores
use sigame_server.Prelude.{
  Bool, List, Option, String, [], any, get_elem?, if◌then◌else◌, int_eq, leb, leb_ℤ, length, ltb_ℤ,
  map, modify_at, mul64, negsuc, none, not, pos, some, suc, zero, ℕ, ℤ, ◌&&◌, ◌++◌, ◌==◌, ◌||◌, ◌∷◌,
}
use sigame_server.Pack.{Float64, Pack, round_type_eq}
use sigame_server.Engine.Rules.{GameMode, mode_eq}
use sigame_server.Engine.State.{CellState, Player, ThemeState, active_players}
use sigame_server.Engine.Game.{Game, with_state}
use sigame_server.Pack

-- `a[i]` of a slice at an `int`, where the source has tested the range.
abbrev pub at : {A : Type 0} → List A → ℤ → Option A
at xs (pos i) = get_elem? xs i
at xs (negsuc i) = none

unfoldable pub round_of : Game → Option Pack.Round
round_of g = at g.pack.rounds g.st.round_index

unfoldable pub pack_question : ℕ → ℕ → Game → Option Pack.Question
unfolding round_of
pack_question t q g = elim (round_of g) [
  | none ↦ none
  | some r ↦ elim (get_elem? r.themes t) [ none ↦ none | some th ↦ get_elem? th.questions q ]
]

-- One cell of the loop in `roundMinMax`.
abbrev pub min_max_cell : ℤ × ℤ → CellState → ℤ × ℤ
min_max_cell (lo, hi) c = if leb_ℤ c.price (pos 0) then (lo, hi) else (
  if lo == pos 0 || ltb_ℤ c.price lo then c.price else lo,
  if ltb_ℤ hi c.price then c.price else hi,
)

unfoldable pub min_max_cells : ℤ × ℤ → List CellState → ℤ × ℤ
min_max_cells acc [] = acc
min_max_cells acc (c ∷ cs) = min_max_cells (min_max_cell acc c) cs

unfoldable pub min_max_themes : ℤ × ℤ → List ThemeState → ℤ × ℤ
unfolding min_max_cells
min_max_themes acc [] = acc
min_max_themes acc (t ∷ ts) = min_max_themes (min_max_cells acc t.questions) ts

-- The least and the greatest positive price of the round, 0 where there is none.
unfoldable pub round_min_max : Game → ℤ × ℤ
unfolding min_max_themes
round_min_max g = min_max_themes (pos 0, pos 0) g.st.table

-- `for step*10 <= minP { step *= 10 }`; the fuel bounds the rounds.
unfoldable pub step_loop : ℕ → ℤ → ℤ → ℤ
step_loop zero min_p step = step
step_loop (suc fuel) min_p step =
    let more = step_loop fuel min_p (mul64 step (pos 10)) in
    if leb_ℤ (mul64 step (pos 10)) min_p then more else step

abbrev pub step_fuel : ℕ
step_fuel = 20

unfoldable pub stake_step : Game → ℤ
unfolding round_min_max step_loop
stake_step g =
    let min_p = (round_min_max g).0 in
    if ltb_ℤ min_p (pos 10) then pos 1 else step_loop step_fuel min_p (pos 1)

unfoldable pub default_question_type : Game → Pack.QuestionType
default_question_type g =
    if g.st.round_type == Pack.RoundType.final
    then Pack.QuestionType.stake_all
    else by_mode g.st.rules.mode
  where
    by_mode : GameMode → Pack.QuestionType
    by_mode GameMode.quiz = Pack.QuestionType.for_all
    by_mode GameMode.turn_taking = Pack.QuestionType.no_risk
    by_mode _ = Pack.QuestionType.simple

unfoldable pub sequential : Game → Bool
sequential g = g.st.rules.mode == GameMode.simple || g.st.rules.mode == GameMode.quiz

-- `randomIndex`: the index, and the generator moved on.
unfoldable pub random_index : ℕ → Game → ℕ × Game
random_index n g =
    if leb n 1 then (0, g) else (let (i, rng) = g.host.int_n g.rng n in (i, record g { rng = rng }))

abbrev pub open_cell : CellState → Bool
open_cell c = not c.played && not c.removed

abbrev pub has_open_cell : ThemeState → Bool
has_open_cell t = not t.removed && any open_cell t.questions

unfoldable pub has_playable_cells : Game → Bool
has_playable_cells g = any has_open_cell g.st.table

unfoldable pub first_open : ℕ → List CellState → Option ℕ
first_open q [] = none
first_open q (c ∷ cs) = let rest = first_open (suc q) cs in if open_cell c then some q else rest

unfoldable pub first_cell : ℕ → List ThemeState → Option (ℕ × ℕ)
unfolding first_open
first_cell t [] = none
first_cell t (th ∷ ths) =
    let rest = first_cell (suc t) ths in
    if th.removed
    then rest
    else elim (first_open 0 th.questions) [ some q ↦ some (t, q) | none ↦ rest ]

unfoldable pub next_sequential_cell : Game → Option (ℕ × ℕ)
unfolding first_cell
next_sequential_cell g = first_cell 0 g.st.table

-- The open cells of the table, in order: what `randomCell` draws from.
unfoldable pub open_in_theme : ℕ → ℕ → List CellState → List (ℕ × ℕ)
open_in_theme t q [] = []
open_in_theme t q (c ∷ cs) =
    let rest = open_in_theme t (suc q) cs in if open_cell c then (t, q) ∷ rest else rest

unfoldable pub open_cells : ℕ → List ThemeState → List (ℕ × ℕ)
unfolding open_in_theme
open_cells t [] = []
open_cells t (th ∷ ths) =
    let rest = open_cells (suc t) ths in
    if th.removed then rest else open_in_theme t 0 th.questions ++ rest

-- `none` is the fault of an index into an empty slice.
unfoldable pub random_cell : Game → Option (ℕ × ℕ) × Game
unfolding open_cells random_index
random_cell g =
    let cells = open_cells 0 g.st.table in
    let (i, g') = random_index (length cells) g in (get_elem? cells i, g')

-- A write to a cell of the table.
abbrev pub with_cell : ℕ → ℕ → (CellState → CellState) → Game → Game
with_cell t q f = with_state λ s. record s {
  table = modify_at s.table t (λ th. record th { questions = modify_at th.questions q f });
}

-- The cell at the indexes that a command names, `none` out of range.
abbrev pub cell_at : Game → ℤ → ℤ → Option CellState
cell_at g t q = elim (at g.st.table t) [ none ↦ none | some th ↦ at th.questions q ]

-- Players with the least score among those given, in their order.
unfoldable pub lowest_of : List Player → List Player → List Player
lowest_of out [] = out
lowest_of [] (p ∷ ps) = lowest_of (p ∷ []) ps
lowest_of (l ∷ ls) (p ∷ ps) =
    lowest_of
      (if ltb_ℤ p.score l.score
        then p ∷ []
        else if p.score == l.score
        then (l ∷ ls) ++ p ∷ []
        else l ∷ ls)
      ps

unfoldable pub lowest_score_players : Game → List Player
unfolding lowest_of active_players
lowest_score_players g = lowest_of [] (active_players g.st)

abbrev pub ids : List Player → List String
ids = map λ p. p.id

unfoldable pub scaled : Game → ℤ → Float64 → ℤ
scaled g price factor = let h = g.host in h.to_int (h.round (h.mul (h.of_int price) factor))
