-- ===== src/Engine/Dispatch/Refusal.antt =====
-- internal/engine/engine.go: what a refused command leaves behind.
use sigame_server.Prelude.{Bool, arith, false, if◌then◌else◌, length, ltb, refl, true, ◌≡◌}
use sigame_server.Engine.Command.{Actor, Command}
use sigame_server.Engine.State.{active_players}
use sigame_server.Engine.Tail.{Tail}
use sigame_server.Engine.Kinds.{Error}
use sigame_server.Engine.Game.{Game}
use sigame_server.Engine.Monad.{
  M, Reply, guard, is_showman_or_host, player_actor, require_showman, require_system, ◌>>◌,
}
use sigame_server.Engine.Control.{on_move, on_next, on_pause}
use sigame_server.Engine.Seats.{on_kick, on_player_joined, on_player_left}
use sigame_server.Engine.Flow.{is_lobby, on_start, start_now}
use sigame_server.Engine.Showman.{on_change_score, on_set_chooser, on_toggle}
use sigame_server.Engine.Appeal.{on_appellate, on_vote_appeal}
use sigame_server.Engine.Final.Deletion.{on_delete_theme}
use sigame_server.Engine.Input.Replies.{
  on_answer, on_answer_draft, on_media_completed, on_set_stake,
}
use sigame_server.Engine.Input.{on_choose_question, on_pass, on_select_player}
use sigame_server.Engine.Judge.{on_validate}
use sigame_server.Engine.Answer.Button.{on_button_result}
use sigame_server.Engine.Dispatch.{on_ai_suggestion, on_player_ready, on_timeout}

-- A refusal leaves the game as it was.
abbrev pub Keeps : {A : Type 0} → Game → Reply A → Type 0
Keeps g (Reply.ok a g') = Unit {0}
Keeps g (Reply.err e g') = g' ≡ g

pub Keeps-showman :
    (a : Actor) (k : M Tail) (g : Game) → Keeps g (k g) → Keeps g ((require_showman a >> k) g)
unfolding require_showman
Keeps-showman a k g h = by_test (is_showman_or_host a)
  where
    by_test :
        (b : Bool)
        → Keeps g (elim (if b then Reply.ok tt g else Reply.err Error.not_allowed g) [
          | Reply.ok u g' ↦ k g'
          | Reply.err e g' ↦ Reply.err e g'
        ])
    by_test true = h
    by_test false = refl

pub Keeps-guard :
    (b : Bool) (e : Error) (k : M Tail) (g : Game) → Keeps g (k g) → Keeps g ((guard b e >> k) g)
Keeps-guard true e k g h = h
Keeps-guard false e k g h = refl

pub on_kick-Keeps : (cmd : Command) (g : Game) → Keeps g (on_kick cmd g)
unfolding on_kick require_showman require_system player_actor
on_kick-Keeps cmd g = ground arith

pub on_player_left-Keeps : (cmd : Command) (g : Game) → Keeps g (on_player_left cmd g)
unfolding on_player_left require_showman require_system player_actor
on_player_left-Keeps cmd g = ground arith

pub on_player_joined-Keeps : (cmd : Command) (g : Game) → Keeps g (on_player_joined cmd g)
unfolding on_player_joined require_showman require_system player_actor
on_player_joined-Keeps cmd g = ground arith

pub on_start-Keeps : (cmd : Command) (g : Game) → Keeps g (on_start cmd g)
unfolding on_start
on_start-Keeps cmd g = Keeps-showman cmd.actor _ g (
    Keeps-guard (is_lobby g.st.stage) Error.bad_state (more g) g
      (Keeps-guard (has_players g) Error.bad_state (start_now g) g (started g)))
  where
    has_players : Game → Bool
    has_players g = ltb 0 (length (active_players g.st))

    more : Game → M Tail
    more g = guard (has_players g) Error.bad_state >> start_now g

    started : (g : Game) → Keeps g (start_now g g)
    started g = tt

pub on_move-Keeps : (cmd : Command) (g : Game) → Keeps g (on_move cmd g)
unfolding on_move require_showman require_system player_actor
on_move-Keeps cmd g = ground arith

pub on_pause-Keeps : (cmd : Command) (g : Game) → Keeps g (on_pause cmd g)
unfolding on_pause require_showman require_system player_actor
on_pause-Keeps cmd g = ground arith

pub on_next-Keeps : (cmd : Command) (g : Game) → Keeps g (on_next cmd g)
unfolding on_next
on_next-Keeps cmd g = Keeps-showman cmd.actor _ g (ground arith)

pub on_toggle-Keeps : (cmd : Command) (g : Game) → Keeps g (on_toggle cmd g)
unfolding on_toggle require_showman require_system player_actor
on_toggle-Keeps cmd g = ground arith

pub on_change_score-Keeps : (cmd : Command) (g : Game) → Keeps g (on_change_score cmd g)
unfolding on_change_score
on_change_score-Keeps cmd g = Keeps-showman cmd.actor _ g (ground arith)

pub on_set_chooser-Keeps : (cmd : Command) (g : Game) → Keeps g (on_set_chooser cmd g)
unfolding on_set_chooser
on_set_chooser-Keeps cmd g = Keeps-showman cmd.actor _ g (ground arith)

pub on_appellate-Keeps : (cmd : Command) (g : Game) → Keeps g (on_appellate cmd g)
unfolding on_appellate require_showman require_system player_actor
on_appellate-Keeps cmd g = ground arith

pub on_vote_appeal-Keeps : (cmd : Command) (g : Game) → Keeps g (on_vote_appeal cmd g)
unfolding on_vote_appeal require_showman require_system player_actor
on_vote_appeal-Keeps cmd g = ground arith

pub on_delete_theme-Keeps : (cmd : Command) (g : Game) → Keeps g (on_delete_theme cmd g)
unfolding on_delete_theme require_showman require_system player_actor
on_delete_theme-Keeps cmd g = ground arith

pub on_select_player-Keeps : (cmd : Command) (g : Game) → Keeps g (on_select_player cmd g)
unfolding on_select_player require_showman require_system player_actor
on_select_player-Keeps cmd g = ground arith

pub on_choose_question-Keeps : (cmd : Command) (g : Game) → Keeps g (on_choose_question cmd g)
unfolding on_choose_question require_showman require_system player_actor
on_choose_question-Keeps cmd g = ground arith

pub on_pass-Keeps : (cmd : Command) (g : Game) → Keeps g (on_pass cmd g)
unfolding on_pass require_showman require_system player_actor
on_pass-Keeps cmd g = ground arith

pub on_answer_draft-Keeps : (cmd : Command) (g : Game) → Keeps g (on_answer_draft cmd g)
unfolding on_answer_draft require_showman require_system player_actor
on_answer_draft-Keeps cmd g = ground arith

pub on_answer-Keeps : (cmd : Command) (g : Game) → Keeps g (on_answer cmd g)
unfolding on_answer require_showman require_system player_actor
on_answer-Keeps cmd g = ground arith

pub on_set_stake-Keeps : (cmd : Command) (g : Game) → Keeps g (on_set_stake cmd g)
unfolding on_set_stake require_showman require_system player_actor
on_set_stake-Keeps cmd g = ground arith

pub on_media_completed-Keeps : (cmd : Command) (g : Game) → Keeps g (on_media_completed cmd g)
unfolding on_media_completed require_showman require_system player_actor
on_media_completed-Keeps cmd g = ground arith

pub on_validate-Keeps : (cmd : Command) (g : Game) → Keeps g (on_validate cmd g)
unfolding on_validate require_showman require_system player_actor
on_validate-Keeps cmd g = ground arith

pub on_button_result-Keeps : (cmd : Command) (g : Game) → Keeps g (on_button_result cmd g)
unfolding on_button_result require_showman require_system player_actor
on_button_result-Keeps cmd g = ground arith

pub on_timeout-Keeps : (cmd : Command) (g : Game) → Keeps g (on_timeout cmd g)
unfolding on_timeout require_showman require_system player_actor
on_timeout-Keeps cmd g = ground arith

pub on_player_ready-Keeps : (cmd : Command) (g : Game) → Keeps g (on_player_ready cmd g)
unfolding on_player_ready require_showman require_system player_actor
on_player_ready-Keeps cmd g = ground arith

pub on_ai_suggestion-Keeps : (cmd : Command) (g : Game) → Keeps g (on_ai_suggestion cmd g)
unfolding on_ai_suggestion require_showman require_system player_actor
on_ai_suggestion-Keeps cmd g = ground arith
