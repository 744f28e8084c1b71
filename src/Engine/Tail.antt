-- ===== src/Engine/Tail.antt =====
-- The calls by which the functions of internal/engine hand over to one another. The source's
-- functions of the game flow are mutually recursive, and each such call is the last thing that its
-- caller does, so a function here ends with the call as a value, and `Engine.Run` makes it.
use sigame_server.Prelude.{Bool, String, none, some, string_eq, ℕ, ℤ}
use sigame_server.Pack.{Float64}
use sigame_server.Engine.Kinds.{StakeMode, TimerKind}
use sigame_server.Engine.State.{Player, QuestionState, player}
use sigame_server.Engine.Game.{Game}

pub data Tail : Type 0 where
  done enter_round end_game start_final_round final_continue final_next_deleter final_delete_timeout
        final_play_last_theme show_answer end_question after_question process_appeals appeal_finish
        play_content show_group content_group_done content_finished nobody_answered rearm
        stake_advance hidden_stakes_done hidden_stakes_timeout hidden_answering_begin
        hidden_answering_done hidden_reveal_next :
      Tail
  start_round : ℤ → Tail
  begin_selection : Bool → Tail
  end_round : String → Tail
  start_question : ℕ → ℕ → Tail
  final_delete : ℕ → String → Tail
  resolve_pending : String → Tail
  stake_ask_bid : String → Tail
  stake_apply : String → StakeMode → ℤ → Tail
  stake_set_pass : String → Tail
  stake_winner : String → Tail
  secret_recipient_chosen : String → Tail
  secret_after_price : ℤ → Tail
  ask_answer : String → TimerKind → ℤ → Tail
  apply_verdict : String → String → Bool → Float64 → String → Tail

abbrev pub Turn : Type 0
Turn = Game × Tail

-- The last call of a function.
abbrev pub goto : Tail → Game → Turn
goto t g = (g, t)

abbrev pub finish : Game → Turn
finish g = (g, Tail.done)

-- The body of a function that reads the current question; without one the source would fault.
abbrev pub on_question : (QuestionState → Game → Turn) → Game → Turn
on_question f g = elim (g.st.question) [ none ↦ finish g | some q ↦ f q g ]

-- So for a player, by the id that stands for the pointer.
abbrev pub on_player : String → (Player → Game → Turn) → Game → Turn
on_player id f g = elim (player g.st id) [ none ↦ finish g | some p ↦ f p g ]
