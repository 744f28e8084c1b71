-- ===== src/Engine/Table/Scores.antt =====
-- internal/engine/engine.go: the players with the lowest score.
use sigame_server.Prelude.{
  All, Bool, List, [], append_assoc_one, append_nil, arith, eq_of_parts, false, if◌then◌else◌, inl,
  inr, int_eq, keep, ltb_ℤ, subst, sym, true, ℤ, ◌++◌, ◌<ℤ◌, ◌==◌, ◌∷◌, ◌≡◌, ◌≤ℤ◌, ◌⊎◌,
}
use sigame_server.Engine.State.{Player, active_players}
use sigame_server.Engine.Table.{lowest_of, lowest_score_players}
use sigame_server.Engine.Game.{Game}

-- No score of these players is below the given one.
abbrev pub AllAbove : ℤ → List Player → Type 0
AllAbove s = All (λ p. s ≤ℤ p.score)

-- All these players have the given score.
abbrev pub AllAt : ℤ → List Player → Type 0
AllAt s = All (λ p. p.score ≡ s)

-- The players at the given score, in order.
unfoldable pub at_score : ℤ → List Player → List Player
at_score s ps = keep (λ p. p.score == s) ps

-- The least score of a list that starts with the given one.
unfoldable pub least_score : ℤ → List Player → ℤ
least_score s [] = s
least_score s (p ∷ ps) = least_score (if ltb_ℤ p.score s then p.score else s) ps

least_score_le : (s : ℤ) (ps : List Player) → least_score s ps ≤ℤ s
unfolding least_score
least_score_le s [] = omega arith
least_score_le s (p ∷ ps) =
    ground (arith, least_score_le (if ltb_ℤ p.score s then p.score else s) ps)

least_score-AllAbove : (s : ℤ) (ps : List Player) → AllAbove (least_score s ps) ps
unfolding least_score
least_score-AllAbove s [] = tt
least_score-AllAbove s (p ∷ ps) = (
  ground (arith, least_score_le (if ltb_ℤ p.score s then p.score else s) ps),
  least_score-AllAbove (if ltb_ℤ p.score s then p.score else s) ps,
)

abbrev when : {A : Type 0} → Bool → List A → List A
when b xs = if b then xs else []

abbrev Run : Player → List Player → List Player → Type 0
Run p out ps =
    lowest_of (p ∷ out) ps
    ≡ when (least_score p.score ps == p.score) (p ∷ out) ++ at_score (least_score p.score ps) ps

Run-lower :
    (p : Player) (out : List Player) (q : Player) (qs : List Player)
    → ltb_ℤ q.score p.score ≡ true
    → Run q [] qs
    → Run p out (q ∷ qs)
unfolding lowest_of at_score least_score
Run-lower p out q qs h r = ground (arith, least_score_le q.score qs, eq_of_parts p.score q.score)

Run-equal :
    (p : Player) (out : List Player) (q : Player) (qs : List Player)
    → ltb_ℤ q.score p.score ≡ false
    → q.score ≡ p.score
    → Run p (out ++ q ∷ []) qs
    → Run p out (q ∷ qs)
unfolding lowest_of at_score least_score
Run-equal p out q qs h e r =
    ground (arith, append_assoc_one (p ∷ out) (at_score (least_score p.score qs) qs) q)

Run-higher :
    (p : Player) (out : List Player) (q : Player) (qs : List Player)
    → p.score <ℤ q.score
    → Run p out qs
    → Run p out (q ∷ qs)
unfolding lowest_of at_score least_score
Run-higher p out q qs h r = ground (arith, least_score_le p.score qs)

compare_scores : (a b : ℤ) → (ltb_ℤ a b ≡ true) ⊎ (((ltb_ℤ a b ≡ false) × (a ≡ b)) ⊎ (b <ℤ a))
compare_scores a b = ground (arith, eq_of_parts a b)

lowest_of-Run : (p : Player) (out ps : List Player) → Run p out ps
unfolding lowest_of at_score least_score
lowest_of-Run p out [] = ground (arith, append_nil (p ∷ out))
lowest_of-Run p out (q ∷ qs) = elim (compare_scores q.score p.score) [
  | inl h ↦ Run-lower p out q qs h (lowest_of-Run q [] qs)
  | inr (inl (h, e)) ↦ Run-equal p out q qs h e (lowest_of-Run p (out ++ q ∷ []) qs)
  | inr (inr h) ↦ Run-higher p out q qs h (lowest_of-Run p out qs)
]

lowest_of-least :
    (p : Player) (ps : List Player)
    → lowest_of [] (p ∷ ps) ≡ at_score (least_score p.score ps) (p ∷ ps)
unfolding lowest_of at_score
lowest_of-least p ps =
    ground (arith, lowest_of-Run p [] ps, eq_of_parts p.score (least_score p.score ps))

-- Where a player is active, the players with the lowest score are all the active players, in
-- their order, whose score is the least, and no active player is below it.
pub lowest_score_players-least :
    (g : Game) (p : Player) (ps : List Player)
    → active_players g.st ≡ p ∷ ps
    → (lowest_score_players g ≡ at_score (least_score p.score ps) (active_players g.st))
      × AllAbove (least_score p.score ps) (active_players g.st)
unfolding lowest_score_players
lowest_score_players-least g p ps h =
    subst
      (λ qs.
        (lowest_of [] qs ≡ at_score (least_score p.score ps) qs)
        × AllAbove (least_score p.score ps) qs)
      (sym h) (lowest_of-least p ps, (least_score_le p.score ps, least_score-AllAbove p.score ps))
