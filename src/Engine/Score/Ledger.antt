-- ===== src/Engine/Score/Ledger.antt =====
-- internal/engine/engine.go, `addScore`: the score that changes, and the scores that do not.
use sigame_server.Prelude.{
  Bool, IsInt64, List, Option, String, [], add64, add_ℤ_parts, ap, arith, eq_of_parts, false,
  find_first, if◌then◌else◌, int64, int64_of_range, int_eq, map, none, not, pos, refl, some,
  string_eq, true, ℤ, ◌&&◌, ◌+ℤ◌, ◌==◌, ◌∙◌, ◌∷◌, ◌≡◌,
}
use text.Mathlib.TextEquality.{eq_iff}
use sigame_server.Engine.State.{Player, player}
use sigame_server.Engine.Game.{Game, add_score, emit, emit_all, score_of}

abbrev pub score : Game → String → ℤ
score g id = score_of (player g.st id)

abbrev pub mapped : (Player → Player) → Option Player → Option Player
mapped f none = none
mapped f (some p) = some (f p)

find-write :
    (f : Player → Player) (id j : String) (ps : List Player)
    → ((p : Player) → (f p).id ≡ p.id)
    → find_first (λ p. p.id == j) (map (λ p. if p.id == id then f p else p) ps) ≡ (
        if j == id
        then mapped f (find_first (λ p. p.id == j) ps)
        else find_first (λ p. p.id == j) ps)
find-write f id j [] hf = ground arith
find-write f id j (p ∷ ps) hf = ground (
  arith,
  hf p,
  find-write f id j ps hf,
  eq_iff p.id j,
  eq_iff p.id id,
  eq_iff j id,
  eq_iff ((f p).id) j,
)

add_zero : (a : ℤ) → a +ℤ pos 0 ≡ a
add_zero a = eq_of_parts (a +ℤ pos 0) a (omega (arith, add_ℤ_parts a (pos 0)))

pub add64_zero : (a : ℤ) → IsInt64 a → add64 a (pos 0) ≡ a
add64_zero a h = ap int64 (add_zero a) ∙ int64_of_range a h

abbrev pub no_change : ℤ → String → Bool
no_change d reason = d == pos 0 && not (reason == "correction")

abbrev pub gain : ℤ → Player → Player
gain d p = record p { score = add64 p.score d }

pub player-add_score :
    (id : String) (d : ℤ) (reason : String) (g : Game) (j : String)
    → player ((add_score id d reason g).st) j ≡ (
        if no_change d reason
        then player g.st j
        else if j == id
        then mapped (gain d) (player g.st j)
        else player g.st j)
unfolding add_score player emit_all emit
player-add_score id d reason g j = ground (arith, find-write (gain d) id j g.st.players (λ p. refl))

pub eq_self : (id : String) → (id == id) ≡ true
eq_self id = ground (arith, eq_iff id id)

score_of-mapped :
    (f : Player → Player)
    → ((p : Player) → (f p).score ≡ p.score)
    → (o : Option Player) → score_of (mapped f o) ≡ score_of o
score_of-mapped f hf none = refl
score_of-mapped f hf (some p) = hf p

-- A write that keeps the score and the id of a player changes no score.
pub score-write :
    (f : Player → Player) (id : String) (ps : List Player) (j : String)
    → ((p : Player) → (f p).id ≡ p.id)
    → ((p : Player) → (f p).score ≡ p.score)
    → score_of (find_first (λ p. p.id == j) (map (λ p. if p.id == id then f p else p) ps))
      ≡ score_of (find_first (λ p. p.id == j) ps)
score-write f id ps j hi hs =
    ap score_of (find-write f id j ps hi)
    ∙ ground (arith, score_of-mapped f hs (find_first (λ p. p.id == j) ps))

-- With the player on record, and the score in the range of the integers, a score change adds the
-- delta to that player's score, whatever its reason, and leaves every other player as they are.
pub add_score-score :
    (id : String) (d : ℤ) (reason : String) (g : Game) (p : Player)
    → player g.st id ≡ some p
    → IsInt64 p.score
    → (score (add_score id d reason g) id ≡ add64 p.score d)
      × ((j : String) → (j == id) ≡ false → player ((add_score id d reason g).st) j ≡ player g.st j)
add_score-score id d reason g p h hr = (
  ap score_of (player-add_score id d reason g id)
      ∙ ground (arith, h, eq_self id, add64_zero p.score hr, eq_of_parts d (pos 0)),
  λ j ne. player-add_score id d reason g j ∙ ground (arith, ne),
)

-- The player found under an id has it.
abbrev pub HasId : String → Option Player → Type 0
HasId id none = Unit {0}
HasId id (some p) = p.id ≡ id

pub find_first-HasId : (id : String) (ps : List Player) → HasId id (find_first (λ p. p.id == id) ps)
find_first-HasId id [] = tt
find_first-HasId id (q ∷ qs) = ground (arith, eq_iff q.id id, find_first-HasId id qs)
