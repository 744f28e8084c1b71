-- ===== src/Engine/Snapshot/Tests.antt =====
-- The views of the sample game.
use sigame_server.Prelude.{All, [], pos, refl, some, true, ◌∷◌, ◌≡◌}
use sigame_server.Engine.Kinds.{Role}
use sigame_server.Engine.Question.{new_question}
use sigame_server.Engine.State.{Player, QuestionState, player}
use sigame_server.Engine.Game.{Game}
use sigame_server.Engine.Samples.{ann, bob, current, cyd, playing}
use sigame_server.Engine.Snapshot.{question_view, snapshot, visible_of}
use sigame_server.Engine.Snapshot.Hiding.{
  Allowed, asking, question_view-Allowed, snapshot-secret, with_secret,
}

snapshot-secret_example :
    snapshot Role.player "ann" (asking (with_secret ("yes" ∷ []) [] [] "" current) playing)
    ≡ snapshot Role.player "ann"
        (asking (with_secret ("no" ∷ []) ("yes" ∷ []) [] "hm" current) playing)
unfolding new_question
snapshot-secret_example =
    snapshot-secret Role.player "ann" current playing ("yes" ∷ []) [] ("no" ∷ []) ("yes" ∷ []) [] []
      "" "hm" refl refl

-- Ann and Bob have made hidden stakes, and Ann's turn in the reveal has come.
abbrev sealed : QuestionState
sealed = record current {
  hidden = true;
  hidden_all = true;
  answerers = "a" ∷ "b" ∷ "c" ∷ [];
  reveal_idx = 1;
}

abbrev staked : Player → Player
staked p = record p { stake_made = true; stake = pos 50 }

abbrev sealed_game : Game
sealed_game = record playing {
  st = record (playing.st) { players = staked ann ∷ staked bob ∷ cyd ∷ []; question = some sealed };
}

-- Cyd sees what Ann has staked, and Bob both.
cyd_view : (question_view Role.player "c" sealed sealed_game).hidden_stakes ≡ ("a", pos 50) ∷ []
unfolding question_view new_question visible_of player
cyd_view = refl

bob_view :
    (question_view Role.player "b" sealed sealed_game).hidden_stakes
    ≡ ("a", pos 50) ∷ ("b", pos 50) ∷ []
unfolding question_view new_question visible_of player
bob_view = refl

question_view-Allowed_example :
    All
      (Allowed Role.player "b" sealed (sealed_game.st) (λ p. p.stake_made) (λ p. p.stake))
      (("a", pos 50) ∷ ("b", pos 50) ∷ [])
    × All (Allowed Role.player "b" sealed (sealed_game.st) (λ p. p.answered) (λ p. p.answer)) []
unfolding question_view new_question visible_of player
question_view-Allowed_example = question_view-Allowed Role.player "b" sealed sealed_game
