-- ===== src/Engine/Final/Deletion.antt =====
-- internal/engine/final.go: the deletions, and the themes that are played.
use sigame_server.Prelude.{
  Bool, List, Option, String, [], elem, false, get_elem?, if◌then◌else◌, keep, leb, length, ltb,
  ltb_ℤ, modify_at, nat_eq, negsuc, none, not, pos, some, string_eq, true, ℕ, ℤ, ◌&&◌, ◌==◌, ◌||◌,
  ◌∷◌, ◌▷◌,
}
use sigame_server.Engine.Kinds.{Error, PlayerState, Stage, TimerKind, stage_eq}
use sigame_server.Engine.State.{CellState, Pending, Player, ThemeState, active_players}
use sigame_server.Engine.Command.{Command}
use sigame_server.Engine.Event.{EvType, Payload}
use sigame_server.Engine.Game.{
  Game, emit_all, emit_players, emit_stage, emit_table, set_player_state, with_player, with_state,
}
use sigame_server.Engine.Timers.{stop_kind}
use sigame_server.Engine.Monad.{M, acting_player, get, guard, or_fail, pure, run, ◌>>=◌, ◌>>◌}
use sigame_server.Engine.Table.{first_open, next_sequential_cell, open_cell, random_index}
use sigame_server.Engine.Tail.{Tail, Turn, finish, goto}
use mathlib.Core.List.{foldl}
use sigame_server.Engine.Final.{final_build_order, final_remaining_themes}

abbrev index_of : ℤ → List ℕ → Option ℕ
index_of (pos t) ts = if elem t ts then some t else none
index_of (negsuc t) ts = none

unfoldable pub on_delete_theme : Command → M Tail
unfolding acting_player final_remaining_themes stop_kind
on_delete_theme cmd = do
  g ← get
  guard (g.st.stage == Stage.final_themes && not (g.st.deleter_id == "") && is_idle g.st.pending)
      Error.bad_state
  p ← acting_player cmd g.st.deleter_id
  guard (p.id == g.st.deleter_id) Error.not_allowed
  t ← or_fail (index_of cmd.theme (final_remaining_themes g)) Error.bad_argument
  run (stop_kind TimerKind.theme_selection)
  pure (Tail.final_delete t p.id)
  where
    is_idle : Option Pending → Bool
    is_idle none = true
    is_idle (some pd) = false

unfoldable pub final_delete : ℕ → String → Game → Turn
unfolding emit_table
final_delete t by g =
    with_state
      (λ s. record s {
        table = modify_at s.table t (λ th. record th { removed = true });
        deleter_id = "";
      })
      g
    ▷ emit_all EvType.theme_deleted (Payload.theme_deleted t by)
    ▷ emit_table
    ▷ goto Tail.final_next_deleter

unfoldable pub final_delete_timeout : Game → Turn
unfolding final_remaining_themes random_index
final_delete_timeout g =
    let rem = final_remaining_themes g in
    if leb (length rem) 1
    then goto Tail.final_play_last_theme g
    else (let (i, g') = random_index (length rem) g in
        elim (get_elem? rem i) [
          | none ↦ finish g'
          | some t ↦ goto (Tail.final_delete t g.st.deleter_id) g'
        ])

-- Removes the open cells but the first.
unfoldable pub close_rest : Bool → List CellState → List CellState
close_rest found [] = []
close_rest found (c ∷ cs) =
    (if open_cell c && found then record c { removed = true } else c)
    ∷ close_rest (found || open_cell c) cs

unfoldable pub final_play_last_theme : Game → Turn
unfolding final_remaining_themes close_rest first_open
final_play_last_theme g = play (final_remaining_themes g)
  where
    start : ℕ → ThemeState → Option ℕ → Turn
    start t th none = goto (Tail.end_round "empty") g
    start t th (some q) =
        with_state
          (λ s. record s {
            table =
                modify_at s.table t (λ th. record th { questions = close_rest false th.questions });
          })
          g
        ▷ emit_all EvType.question_caption (Payload.question_caption th.name (pos 0))
        ▷ goto (Tail.start_question t q)

    play : List ℕ → Turn
    play [] = goto (Tail.end_round "empty") g
    play (t ∷ _) = elim (get_elem? g.st.table t) [
      | none ↦ finish g
      | some th ↦ start t th (first_open 0 th.questions)
    ]

-- Runs after a question of the final round ended or was returned.
unfoldable pub final_continue : Game → Turn
unfolding next_sequential_cell final_remaining_themes
final_continue g =
    if g.st.round_timed_out
    then goto (Tail.end_round "timeout") g
    else if g.st.rules.play_all_questions_in_final
    then play (next_sequential_cell g)
    else if length (final_remaining_themes g) == 1
    then goto Tail.final_play_last_theme g
    else goto (Tail.end_round "empty") g
  where
    play : Option (ℕ × ℕ) → Turn
    play none = goto (Tail.end_round "empty") g
    play (some (t, q)) = elim (get_elem? g.st.table t) [
      | none ↦ finish g
      | some th ↦
          emit_all EvType.question_caption (Payload.question_caption th.name (pos 0)) g
          ▷ goto (Tail.start_question t q)
    ]

abbrev admit : (Player → Bool) → Game → Player → Game
admit test g p = with_player p.id (λ p. record p { final_in_game = test p }) g

unfoldable pub start_final_round : Game → Turn
unfolding active_players set_player_state emit_players emit_stage final_build_order
start_final_round g =
    let admitted = foldl (admit (λ p. ltb_ℤ (pos 0) p.score)) g (active_players g.st) in
    let n = length (keep (λ p. ltb_ℤ (pos 0) p.score) (active_players g.st)) in
    if n == 0
    then (if g.st.rules.allow_everyone_to_play_hidden_stakes && ltb 0 (length (active_players g.st))
        then begin (foldl (admit (λ p. true)) admitted (active_players g.st))
        else goto (Tail.end_round "noPlayers") (
            if g.st.rules.allow_everyone_to_play_hidden_stakes
            then foldl (admit (λ p. true)) admitted (active_players g.st)
            else admitted))
    else begin admitted
  where
    sit_out : Game → Player → Game
    sit_out g p = if p.final_in_game then g else set_player_state p.id PlayerState.pass g

    begin : Game → Turn
    begin g =
        let seated = emit_players (foldl sit_out g (active_players g.st)) in
        if g.st.rules.play_all_questions_in_final
        then goto Tail.final_continue seated
        else goto Tail.final_next_deleter (
            with_state (λ s. record s { stage = Stage.final_themes }) seated
            ▷ emit_stage
            ▷ final_build_order)
