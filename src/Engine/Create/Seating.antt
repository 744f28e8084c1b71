-- ===== src/Engine/Create/Seating.antt =====
-- internal/engine/engine.go, `New` and `onPlayerJoined`: who has a seat.
use sigame_server.Prelude.{
  All, Bool, List, Option, String, [], ap, elem, false, if◌then◌else◌, leb, leb→le, length, ltb,
  ltb→lt, map, none, not, pos, refl, some, string_eq, true, ℤ, ◌&&◌, ◌<◌, ◌==◌, ◌||◌, ◌∷◌, ◌≡◌, ◌≤◌,
}
use sigame_server.Pack.{Pack}
use sigame_server.Engine.Rules.{Rules, TimeSettings}
use sigame_server.Engine.Kinds.{Error}
use sigame_server.Engine.State.{Player, PlayerInit}
use sigame_server.Engine.Seats.{max_players, new_player}
use sigame_server.Engine.Create.{
  Created, complete_rules, has_rounds, known_mode, mode_or_classic, new_game, opened, seat_players,
}
use sigame_server.Engine.Game.{Host}

-- The ids are not empty, not the showman's, pairwise different, and none of those seen before.
abbrev pub Seated : String → List String → List Player → Type 0
Seated showman_id seen [] = Unit {0}
Seated showman_id seen (p ∷ ps) =
    ((p.id == "") ≡ false)
    × (((p.id == showman_id) ≡ false)
        × ((elem p.id seen ≡ false) × Seated showman_id (p.id ∷ seen) ps))

-- Every player starts with no points and is not kicked.
abbrev pub Fresh : List Player → Type 0
Fresh = All (λ p. (p.score ≡ pos 0) × (p.kicked ≡ false))

abbrev WellSeated : String → List String → List PlayerInit → Option (List Player) → Type 0
WellSeated showman_id seen inits none = Unit {0}
WellSeated showman_id seen inits (some ps) =
    (map (λ p. p.id) ps ≡ map (λ i. i.id) inits) × (Seated showman_id seen ps × Fresh ps)

WellSeated-step :
    (showman_id : String) (seen : List String) (i : PlayerInit) (inits : List PlayerInit)
    (b c d : Bool) (rest : Option (List Player))
    → (i.id == "") ≡ b
    → elem i.id seen ≡ c
    → (i.id == showman_id) ≡ d
    → WellSeated showman_id (i.id ∷ seen) inits rest
    → WellSeated showman_id seen (i ∷ inits) (
        if b || c || d
        then none
        else elim rest [ none ↦ none | some ps ↦ some (new_player i.id i.name ∷ ps) ])
WellSeated-step showman_id seen i inits true c d rest hb hc hd h = tt
WellSeated-step showman_id seen i inits false true d rest hb hc hd h = tt
WellSeated-step showman_id seen i inits false false true rest hb hc hd h = tt
WellSeated-step showman_id seen i inits false false false none hb hc hd h = tt
WellSeated-step showman_id seen i inits false false false (some ps) hb hc hd (e, (s, f)) =
    (ap (λ w. i.id ∷ w) e, ((hb, (hd, (hc, s))), ((refl, refl), f)))

seat_players-WellSeated :
    (showman_id : String) (seen : List String) (inits : List PlayerInit)
    → WellSeated showman_id seen inits (seat_players showman_id seen inits)
unfolding seat_players
seat_players-WellSeated showman_id seen [] = (refl, (tt, tt))
seat_players-WellSeated showman_id seen (i ∷ inits) =
    WellSeated-step showman_id seen i inits (i.id == "") (elem i.id seen) (i.id == showman_id)
      (seat_players showman_id (i.id ∷ seen) inits) refl refl refl
      (seat_players-WellSeated showman_id (i.id ∷ seen) inits)

-- What a created game starts from.
abbrev pub Opened : String → List PlayerInit → Created → Type 0
Opened showman_id inits (Created.err e) = Unit {0}
Opened showman_id inits (Created.ok g) =
    (map (λ p. p.id) g.st.players ≡ map (λ i. i.id) inits)
    × ((Seated showman_id [] g.st.players × Fresh g.st.players)
        × ((0 < length inits) × (length inits ≤ max_players)))

Opened-seat :
    (host : Host) (pack : Pack) (rules : Rules) (times : TimeSettings) (inits : List PlayerInit)
    (showman_id : String) (seed : ℤ) (o : Option (List Player))
    → 0 < length inits
    → length inits ≤ max_players
    → WellSeated showman_id [] inits o
    → Opened showman_id inits (opened host pack rules times showman_id seed o)
Opened-seat host pack rules times inits showman_id seed none hl hm h = tt
Opened-seat host pack rules times inits showman_id seed (some ps) hl hm (e, h) = (e, (h, (hl, hm)))

-- A game that is created has the given players in their order, from one to twelve; their ids are
-- not empty, not the showman's and pairwise different, and all start with no points.
pub new_game-Opened :
    (host : Host) (pack : Option Pack) (rules : Rules) (times : TimeSettings)
    (inits : List PlayerInit) (showman_id : String) (seed : ℤ)
    → Opened showman_id inits (new_game host pack rules times inits showman_id seed)
unfolding new_game
new_game-Opened host none rules times inits showman_id seed = tt
new_game-Opened host (some pack) rules times inits showman_id seed =
    by_test (has_rounds pack) (ltb 0 (length inits)) (leb (length inits) max_players)
      (not (showman_id == "")) (known_mode (mode_or_classic rules.mode)) refl refl
  where
    seats : Option (List Player)
    seats = seat_players showman_id [] inits

    by_test :
        (a b c d e : Bool)
        → ltb 0 (length inits) ≡ b
        → leb (length inits) max_players ≡ c
        → Opened showman_id inits (
            if a && b && c && d && e
            then opened host pack (complete_rules rules) times showman_id seed seats
            else Created.err Error.bad_argument)
    by_test true true true true true hb hc =
        Opened-seat host pack (complete_rules rules) times inits showman_id seed seats
          (ltb→lt 0 (length inits) hb) (leb→le (length inits) max_players hc)
          (seat_players-WellSeated showman_id [] inits)
    by_test true true true true false hb hc = tt
    by_test true true true false e hb hc = tt
    by_test true true false d e hb hc = tt
    by_test true false c d e hb hc = tt
    by_test false b c d e hb hc = tt
