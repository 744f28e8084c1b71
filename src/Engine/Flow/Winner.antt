-- ===== src/Engine/Flow/Winner.antt =====
-- internal/engine/engine.go, `endGame`: who wins.
use sigame_server.Prelude.{
  All, Bool, List, Option, String, [], any, ap, arith, false, if◌then◌else◌, int_eq, keep, ltb_ℤ,
  none, not, some, true, ℤ, ◌++◌, ◌<ℤ◌, ◌==◌, ◌||◌, ◌∷◌, ◌≡◌, ◌≤ℤ◌,
}
use sigame_server.Engine.State.{Player}
use sigame_server.Engine.Flow.Ending.{winner_loop, winner_of}

abbrev Best : Type 0
Best = ℤ × String × Bool

-- All these players are below, or at most at, a score.
abbrev pub AllBelow : ℤ → List Player → Type 0
AllBelow s = All (λ p. p.score <ℤ s)

abbrev pub AllAtMost : ℤ → List Player → Type 0
AllAtMost s = All (λ p. p.score ≤ℤ s)

winner_loop-rest :
    (best : ℤ) (id : String) (tie : Bool) (ps : List Player)
    → AllAtMost best ps
    → winner_loop (some (best, id, tie)) ps ≡ some (best, id, tie || any (λ p. p.score == best) ps)
unfolding winner_loop
winner_loop-rest best id tie [] h = ground arith
winner_loop-rest best id tie (p ∷ ps) h =
    ground (arith, winner_loop-rest best id tie ps (h.1), winner_loop-rest best id true ps (h.1))

-- The running best is below a score.
abbrev Under : Option Best → ℤ → Type 0
Under none s = Unit {0}
Under (some (best, id, tie)) s = best <ℤ s

winner_loop-top :
    (acc : Option Best) (p : Player) (before after : List Player)
    → Under acc p.score
    → AllBelow p.score before
    → AllAtMost p.score after
    → winner_loop acc (before ++ p ∷ after)
      ≡ some (p.score, p.id, any (λ q. q.score == p.score) after)
unfolding winner_loop
winner_loop-top none p [] after hu hb ha = winner_loop-rest p.score p.id false after ha
winner_loop-top (some (best, id, tie)) p [] after hu hb ha =
    ground (arith, winner_loop-rest p.score p.id false after ha)
winner_loop-top none p (q ∷ before) after hu hb ha =
    winner_loop-top (some (q.score, q.id, false)) p before after (hb.0) (hb.1) ha
winner_loop-top (some (best, id, tie)) p (q ∷ before) after hu hb ha =
    winner_loop-top
      (if ltb_ℤ best q.score
        then some (q.score, q.id, false)
        else if q.score == best
        then some (best, id, true)
        else some (best, id, tie))
      p before after (ground arith) (hb.1) ha

-- Of the players who are not kicked, let p be the first with the best score: those before are
-- below it, and those after are not above it. Then p wins, unless one of those after has the same
-- score; in that case nobody wins.
pub winner_of-top :
    (ps before after : List Player) (p : Player)
    → keep (λ p. not p.kicked) ps ≡ before ++ p ∷ after
    → AllBelow p.score before
    → AllAtMost p.score after
    → winner_of ps ≡ (if any (λ q. q.score == p.score) after then "" else p.id)
unfolding winner_of
winner_of-top ps before after p h hb ha =
    ground (arith, h, winner_loop-top none p before after tt hb ha, ap (winner_loop none) h)
