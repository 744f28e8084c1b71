-- ===== src/Engine/Seats.antt =====
-- internal/engine/engine.go: players who leave, come back, join and are kicked.
use sigame_server.Prelude.{
  Option, String, [], false, flag, if◌then◌else◌, int_eq, keep, length, ltb, nat_eq, none, not, pos,
  some, string_eq, true, ℕ, ◌&&◌, ◌++◌, ◌==◌, ◌||◌, ◌∷◌,
}
use sigame_server.Pack.{round_type_eq}
use sigame_server.Engine.Kinds.{
  Error, PlayerState, QSub, Role, Stage, TimerKind, pending_kind_eq, role_eq, stage_eq, sub_eq,
}
use sigame_server.Engine.State.{Player, QuestionState, player}
use sigame_server.Engine.Command.{Command}
use sigame_server.Engine.Game.{
  Game, emit_players, emit_sums, with_player, with_question, with_state,
}
use sigame_server.Engine.Timers.{stop_kind}
use sigame_server.Engine.Monad.{M, get, guard, or_fail, pure, require_system, run, ◌>>=◌, ◌>>◌}
use sigame_server.Engine.Tail.{Tail, Turn, finish, goto}
use sigame_server.Engine.Content.{all_media_done}
use sigame_server.Engine.Hidden.{all_hidden_answered, all_hidden_stakes_made}
use sigame_server.Engine.Control.{turn}
use sigame_server.Engine.Flow.{no_answer}

-- What the game does for a player who left: only a phase that waits for nobody else goes on.
unfoldable pub player_gone : String → Game → Turn
unfolding all_hidden_answered all_hidden_stakes_made all_media_done stop_kind flag
player_gone id g = by_stage g.st.stage g.st.question
  where
    in_stakes : QuestionState → Turn
    in_stakes q =
        if q.hidden_all
        then (if all_hidden_stakes_made g
            then goto Tail.hidden_stakes_done (stop_kind TimerKind.stake_making g)
            else finish g)
        else elim q.stakes [
          | none ↦ finish g
          | some ss ↦
              if flag id ss.active && not (ss.leader == id)
              then goto (Tail.stake_set_pass id) g
              else finish g
        ]

    by_sub : QuestionState → QSub → Turn
    by_sub q QSub.hidden_answering =
        if all_hidden_answered g
        then goto Tail.hidden_answering_done (stop_kind TimerKind.hidden_answering g)
        else finish g
    by_sub q QSub.stakes = in_stakes q
    by_sub q QSub.content =
        if q.awaiting_media_ids && all_media_done g
        then goto Tail.content_group_done (
            with_question (λ q. record q { awaiting_media_ids = false })
              (stop_kind TimerKind.media_fallback g))
        else finish g
    by_sub q _ = finish g

    by_stage : Stage → Option QuestionState → Turn
    by_stage Stage.question (some q) = by_sub q q.sub
    by_stage _ _ = finish g

unfoldable pub on_kick : Command → M Tail
unfolding player emit_players player_gone
on_kick cmd = do
  guard (cmd.actor.is_host || cmd.actor.role == Role.system) Error.not_allowed
  g ← get
  p ← or_fail (player g.st cmd.person_id) Error.bad_argument
  guard (not p.kicked) Error.bad_argument
  guard (not (cmd.person_id == cmd.actor.person_id)) Error.not_allowed
  run (with_player p.id (λ p. record p { kicked = true; connected = false }))
  run emit_players
  turn (player_gone p.id)

unfoldable pub on_player_left : Command → M Tail
unfolding require_system player emit_players player_gone
on_player_left cmd = do
  require_system cmd.actor
  g ← get
  p ← or_fail (player g.st cmd.person_id) Error.bad_argument
  if p.connected
      then (run (with_player p.id (λ p. record p { connected = false }))
          >> (run emit_players >> turn (player_gone p.id)))
      else pure Tail.done

abbrev pub max_players : ℕ
max_players = 12

abbrev pub new_player : String → String → Player
new_player id name = record {
  id = id;
  name = name;
  score = pos 0;
  connected = true;
  kicked = false;
  ready = false;
  can_press = false;
  state = PlayerState.idle;
  in_game = false;
  final_in_game = false;
  stake_made = false;
  stake = pos 0;
  stake_all_in = false;
  stake_passed = false;
  answered = false;
  answer = no_answer;
  media_done = false;
  appeal_used = false;
  right = pos 0;
  wrong = pos 0;
  accepted_answers = [];
  rejected_answers = [];
  appeals = pos 0;
}

unfoldable pub on_player_joined : Command → M Tail
unfolding require_system player emit_players emit_sums
on_player_joined cmd = do require_system cmd.actor; g ← get; join g (player g.st cmd.person_id)
  where
    renamed : Player → Player
    renamed p = record p { connected = true; name = if cmd.name == "" then p.name else cmd.name }

    join : Game → Option Player → M Tail
    join g (some p) = do
      guard (not p.kicked) Error.not_allowed
      run (with_player p.id renamed)
      run emit_players
      pure Tail.done
    join g none = do
      guard (not (cmd.person_id == "" || cmd.person_id == g.st.showman_id)) Error.bad_argument
      guard (ltb (length (keep (λ p. not p.kicked) g.st.players)) max_players) Error.bad_state
      run (
          with_state
            (λ s. record s { players = s.players ++ new_player cmd.person_id cmd.name ∷ [] }))
      run emit_players
      run emit_sums
      pure Tail.done
