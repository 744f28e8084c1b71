-- ===== src/Engine/Appeal/Votes.antt =====
-- internal/engine/appeal.go: the vote on an appeal.
use sigame_server.Prelude.{
  Bool, Dict, List, Option, String, [], ap, arith, false, if◌then◌else◌, insert, keep, length, ltb,
  nat_beq, none, not, refl, some, string_eq, subst, suc, sym, true, ℕ, ◌*◌, ◌+◌, ◌||◌, ◌∙◌, ◌∷◌,
  ◌≡◌, ◌⊎◌,
}
use sigame_server.Engine.Score.Ledger.{find_first-HasId}
use sigame_server.Engine.Event.{EvType, Payload}
use sigame_server.Engine.Kinds.{AppealKind, Error}
use sigame_server.Engine.Game.{Game, emit, emit_all, with_state}
use sigame_server.Engine.Command.{Actor, Command}
use sigame_server.Engine.Monad.{Reply, or_fail, player_actor, ◌>>=◌}
use sigame_server.Engine.Tail.{Tail}
use sigame_server.Engine.State.{Appeal, Player, player}
use sigame_server.Engine.Appeal.Result.{appeal_finish, is_for, is_upheld}
use sigame_server.Engine.Appeal.Tally.{Tallied, appeal_finish-Tallied}
use sigame_server.Engine.Appeal.{
  appeal_decided, cast_rest, cast_vote, count_votes, on_vote_appeal, remove_last,
}

count_votes-length : (vs : Dict Bool) → (count_votes vs).0 + (count_votes vs).1 ≡ length vs
unfolding count_votes
count_votes-length [] = refl
count_votes-length ((id, v) ∷ vs) = ground (arith, count_votes-length vs)

-- What is left of the voters is one shorter.
abbrev pub OneLess : List String → Option (List String) → Type 0
OneLess vs none = Unit {0}
OneLess vs (some rest) = length vs ≡ suc (length rest)

remove_last-OneLess : (id : String) (vs : List String) → OneLess vs (remove_last id vs)
unfolding remove_last
remove_last-OneLess id [] = tt
remove_last-OneLess id (v ∷ vs) = ground (arith, remove_last-OneLess id vs)

abbrev pub voters_left : Option Appeal → ℕ
voters_left none = 0
voters_left (some a) = length a.pending

abbrev pub votes_of : Option Appeal → Dict Bool
votes_of none = []
votes_of (some a) = a.votes

-- The votes for and against the appellant.
abbrev pub votes_for : Dict Bool → ℕ
votes_for vs = length (keep (λ e. e.1) vs)

abbrev pub votes_against : Dict Bool → ℕ
votes_against vs = length (keep (λ e. not (e.1)) vs)

-- Nobody is left to be asked, or more than half of all voters agree.
abbrev pub is_due : Appeal → Bool
is_due a =
    nat_beq (length a.pending) 0
    || ltb a.total (votes_for a.votes * 2)
    || ltb a.total (votes_against a.votes * 2)

-- An appeal for an answer needs more votes for it than against it, one against an answer the
-- reverse.
abbrev pub has_majority : AppealKind → Dict Bool → Bool
has_majority AppealKind.for vs = ltb (votes_against vs) (votes_for vs)
has_majority AppealKind.against vs = ltb (votes_for vs) (votes_against vs)

-- What follows a vote: the tally, where it is due, after which no appeal stands and the appeal had a
-- majority or no player has changed.
abbrev pub Follows : Bool → Appeal → Tail → Game → Type 0
Follows true a t g =
    (t ≡ Tail.appeal_finish)
    × (((appeal_finish g).0).st.appeal ≡ none)
    × ((has_majority a.kind a.votes ≡ true) ⊎ (((appeal_finish g).0).st.players ≡ g.st.players))
Follows false a t g = t ≡ Tail.done

abbrev pub Next : Option Appeal → Tail → Game → Type 0
Next none t g = ⊥
Next (some a) t g = Follows (is_due a) a t g

count_votes-eq : (vs : Dict Bool) → count_votes vs ≡ (votes_for vs, votes_against vs)
unfolding count_votes
count_votes-eq [] = refl
count_votes-eq ((id, true) ∷ vs) = ap (λ c. (suc (c.0), c.1)) (count_votes-eq vs)
count_votes-eq ((id, false) ∷ vs) = ap (λ c. (c.0, suc (c.1))) (count_votes-eq vs)

appeal_decided-eq : (a : Appeal) → appeal_decided a ≡ is_due a
unfolding appeal_decided
appeal_decided-eq a =
    ap (λ c. nat_beq (length a.pending) 0 || ltb a.total (c.0 * 2) || ltb a.total (c.1 * 2))
      (count_votes-eq a.votes)

is_upheld-eq : (a : Appeal) → is_upheld a ≡ has_majority a.kind a.votes
is_upheld-eq a =
    ap (λ c. if is_for a.kind then ltb (c.1) (c.0) else ltb (c.0) (c.1)) (count_votes-eq a.votes)
    ∙ by_kind a.kind
  where
    by_kind :
        (k : AppealKind)
        → (if is_for k
            then ltb (votes_against a.votes) (votes_for a.votes)
            else ltb (votes_for a.votes) (votes_against a.votes))
          ≡ has_majority k a.votes
    by_kind AppealKind.for = refl
    by_kind AppealKind.against = refl

follows_lem :
    (a : Appeal) (g : Game)
    → g.st.appeal ≡ some a
    → Follows (is_due a) a (if appeal_decided a then Tail.appeal_finish else Tail.done) g
follows_lem a g h =
    subst (λ b. Follows b a (if appeal_decided a then Tail.appeal_finish else Tail.done) g)
      (appeal_decided-eq a) (by_due (appeal_decided a))
  where
    tallied : Tallied a g ((appeal_finish g).0)
    tallied = appeal_finish-Tallied a g h

    by_due : (b : Bool) → Follows b a (if b then Tail.appeal_finish else Tail.done) g
    by_due true = (
      refl,
      tallied.0,
      subst (λ b. (b ≡ true) ⊎ (((appeal_finish g).0).st.players ≡ g.st.players)) (is_upheld-eq a)
          (tallied.1),
    )
    by_due false = refl

-- What a vote that is taken changes, and what follows it.
abbrev pub VoteTaken : Command → Game → Reply Tail → Type 0
VoteTaken cmd g (Reply.err e g') = g' ≡ g
VoteTaken cmd g (Reply.ok t g') =
    (voters_left g.st.appeal ≡ suc (voters_left g'.st.appeal))
    × ((votes_of g'.st.appeal ≡ insert cmd.actor.person_id cmd.right (votes_of g.st.appeal))
        × ((g'.st.players ≡ g.st.players) × Next g'.st.appeal t g'))

cast_vote-VoteTaken :
    (cmd : Command) (a : Appeal) (p : Player) (g : Game)
    → g.st.appeal ≡ some a
    → p.id ≡ cmd.actor.person_id
    → VoteTaken cmd g (cast_vote cmd a p g)
unfolding cast_vote emit_all emit
cast_vote-VoteTaken cmd a p g h e =
    by_left (remove_last p.id a.pending) (remove_last-OneLess p.id a.pending)
  where
    next : List String → Game → Reply Tail
    next pending = cast_rest cmd a p pending

    voted : List String → Appeal
    voted rest = record a { pending = rest; votes = insert p.id cmd.right a.votes }

    after : List String → Game
    after rest =
        emit_all EvType.appeal_vote (Payload.appeal_vote p.id cmd.right)
          (with_state (λ s. record s { appeal = some (voted rest) }) g)

    by_left :
        (o : Option (List String))
        → OneLess a.pending o
        → VoteTaken cmd g ((or_fail o Error.not_allowed >>= next) g)
    by_left none l = refl
    by_left (some rest) l = (
      ap voters_left h ∙ l,
      (
        subst (λ id. insert p.id cmd.right a.votes ≡ insert id cmd.right (votes_of g.st.appeal)) e
            (sym (ap (λ o. insert p.id cmd.right (votes_of o)) h)),
        (refl, follows_lem (voted rest) (after rest) refl),
      ),
    )

-- The player that a command of a player stands for: the sender, and nothing has changed.
abbrev Acted : String → Game → Reply Player → Type 0
Acted id g (Reply.err e g') = g' ≡ g
Acted id g (Reply.ok p g') = (g' ≡ g) × (p.id ≡ id)

player_actor-Acted : (a : Actor) (g : Game) → Acted a.person_id g (player_actor a g)
unfolding player_actor player
player_actor-Acted a g = ground (arith, find_first-HasId a.person_id g.st.players)

-- A vote is refused and changes nothing, or it is taken. Then, before the votes are tallied, one voter
-- fewer is left to be asked, the vote stands under the sender's id, and no player has changed. The
-- tally follows where nobody is left to be asked or more than half of all voters agree, and not
-- otherwise. When it has run, up to the call that it ends with, no appeal stands, and either the
-- appeal had a majority or no player has changed by it.
pub on_vote_appeal-VoteTaken : (cmd : Command) (g : Game) → VoteTaken cmd g (on_vote_appeal cmd g)
unfolding on_vote_appeal
on_vote_appeal-VoteTaken cmd g = by_appeal g.st.appeal refl
  where
    by_player :
        (a : Appeal) (r : Reply Player)
        → g.st.appeal ≡ some a
        → Acted cmd.actor.person_id g r
        → VoteTaken cmd g
            (elim r [ Reply.ok p g' ↦ cast_vote cmd a p g' | Reply.err e g' ↦ Reply.err e g' ])
    by_player a (Reply.err e g') h k = k
    by_player a (Reply.ok p g') h (e, i) =
        subst (λ x. VoteTaken cmd g (cast_vote cmd a p x)) (sym e)
          (cast_vote-VoteTaken cmd a p g h i)

    by_appeal :
        (o : Option Appeal)
        → g.st.appeal ≡ o
        → VoteTaken cmd g (
            (or_fail o Error.bad_state >>= λ a. player_actor cmd.actor >>= λ p. cast_vote cmd a p)
              g)
    by_appeal none h = refl
    by_appeal (some a) h = by_player a (player_actor cmd.actor g) h (player_actor-Acted cmd.actor g)
