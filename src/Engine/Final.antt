-- ===== src/Engine/Final.antt =====
-- internal/engine/final.go: the final round, in which players delete themes.
pub mod Deletion
pub mod Order
use sigame_server.Prelude.{
  Bool, List, Option, String, [], any, elem, false, get_elem?, get_or, if◌then◌else◌, int_eq, keep,
  leb, leb_ℤ, length, ltb, map, nat_eq, none, not, some, string_eq, suc, zero, ℕ, ◌%◌, ◌&&◌, ◌++◌,
  ◌+◌, ◌-◌, ◌==◌, ◌∷◌, ◌▷◌,
}
use sigame_server.Engine.Kinds.{PendingKind, TimerKind, stage_eq}
use sigame_server.Engine.State.{Player, State, ThemeState, active, active_players, player}
use sigame_server.Engine.Event.{EvType, Payload}
use sigame_server.Engine.Game.{Game, showman, to, with_state}
use sigame_server.Engine.Timers.{start_timer}
use sigame_server.Engine.Table.{has_open_cell, ids}
use sigame_server.Engine.Tail.{Tail, Turn, finish, goto}
use sigame_server.Engine.Secret.{ask_select_player}
use mathlib.Core.List.{foldl}

-- The themes, by their indexes, that are not deleted and have an open cell.
unfoldable pub remaining_from : ℕ → List ThemeState → List ℕ
remaining_from t [] = []
remaining_from t (th ∷ ths) =
    let rest = remaining_from (suc t) ths in if has_open_cell th then t ∷ rest else rest

unfoldable pub final_remaining_themes : Game → List ℕ
unfolding remaining_from
final_remaining_themes g = remaining_from 0 g.st.table

-- `sort.SliceStable` by the score, ascending.
unfoldable pub insert_by_score : Player → List Player → List Player
insert_by_score p [] = p ∷ []
insert_by_score p (q ∷ qs) =
    let rest = insert_by_score p qs in if leb_ℤ p.score q.score then p ∷ q ∷ qs else q ∷ rest

unfoldable pub sort_by_score : List Player → List Player
unfolding insert_by_score
sort_by_score [] = []
sort_by_score (p ∷ ps) = insert_by_score p (sort_by_score ps)

-- Players side by side with the same score form a group.
unfoldable pub join_group : Player → List (List Player) → List (List Player)
join_group p [] = (p ∷ []) ∷ []
join_group p ([] ∷ grps) = (p ∷ []) ∷ [] ∷ grps
join_group p ((q ∷ qs) ∷ grps) =
    if p.score == q.score then (p ∷ q ∷ qs) ∷ grps else (p ∷ []) ∷ (q ∷ qs) ∷ grps

unfoldable pub group_by_score : List Player → List (List Player)
unfolding join_group
group_by_score [] = []
group_by_score (p ∷ ps) = join_group p (group_by_score ps)

-- `(n - d%n) % n`, where there are both players and deletions.
unfoldable pub final_offset : ℕ → ℕ → ℕ
final_offset n d = if ltb 0 n && ltb 0 d then (n - d % n) % n else 0

-- Groups the participants by their scores, and rotates the order so that the group with the highest
-- score deletes last.
unfoldable pub final_build_order : Game → Game
unfolding sort_by_score group_by_score final_offset final_remaining_themes active_players
final_build_order g =
    let ps = sort_by_score (keep (λ p. p.final_in_game) (active_players g.st)) in
    with_state
      (λ s. record s {
        final_groups = map ids (group_by_score ps);
        final_offset = final_offset (length ps) (length (final_remaining_themes g) - 1);
        delete_step = 0;
        deleter_used = [];
      })
      g

unfoldable pub group_of : String → ℕ → List (List String) → Option ℕ
group_of id gi [] = none
group_of id gi (grp ∷ grps) =
    let rest = group_of id (suc gi) grps in if elem id grp then some gi else rest

abbrev used_beq : ℕ × String → ℕ × String → Bool
used_beq a b = a.0 == b.0 && a.1 == b.1

abbrev pub is_used : ℕ × String → List (ℕ × String) → Bool
is_used key = any (λ k. used_beq k key)

abbrev mark_used : Option ℕ → String → State → State
mark_used none id s = s
mark_used (some gi) id s = record s { deleter_used = (gi, id) ∷ s.deleter_used }

unfoldable pub final_ask_delete : String → Game → Game
unfolding group_of final_remaining_themes to showman start_timer
final_ask_delete id g =
    let asked =
      with_state (λ s. record s { pending = none }) g
      ▷ with_state (λ s. mark_used (group_of id 0 s.final_groups) id s)
      ▷ with_state (λ s. record s { delete_step = suc s.delete_step; deleter_id = id }) in
    let dur = g.st.times.theme_selection_ms in
    let ask = Payload.ask_delete_theme id (final_remaining_themes g) dur in
    to id EvType.ask_delete_theme ask asked
    ▷ (λ g. if g.st.rules.oral then showman EvType.ask_delete_theme ask g else g)
    ▷ start_timer TimerKind.theme_selection dur id

-- One slot for each member of each group, in order: the index of the group.
unfoldable pub slots_from : ℕ → List (List String) → List ℕ
slots_from gi [] = []
slots_from gi (grp ∷ grps) = map (λ _. gi) grp ++ slots_from (suc gi) grps

abbrev pub is_active : Game → String → Bool
is_active g id = elim (player g.st id) [ none ↦ false | some p ↦ active p ]

-- The loop over the slots; `tries` is the rounds that are left.
unfoldable pub deleter_loop : ℕ → List ℕ → Game → Turn
unfolding final_ask_delete ask_select_player player
deleter_loop zero slots g = goto Tail.final_delete_timeout g
deleter_loop (suc tries) slots g =
    let more =
      deleter_loop tries slots (with_state (λ s. record s { delete_step = suc s.delete_step }) g) in
    elim (get_elem? slots ((g.st.delete_step + g.st.final_offset) % length slots)) [
      | none ↦ finish g
      | some gi ↦ from_group gi more (keep (is_active g) (get_or g.st.final_groups gi []))
    ]
  where
    choose : List String → Game → Turn
    choose (id ∷ []) g = finish (final_ask_delete id g)
    choose cands g = finish (ask_select_player PendingKind.deleter g.st.showman_id cands g)

    renew : ℕ → List String → Game → Game
    renew gi members = with_state λ s. record s {
      deleter_used = keep (λ k. not (any (λ id. used_beq k (gi, id)) members)) s.deleter_used;
    }

    from_cands : ℕ → List String → List String → Turn
    from_cands gi members [] = choose members (renew gi members g)
    from_cands gi members cands = choose cands g

    from_group : ℕ → Turn → List String → Turn
    from_group gi more [] = more
    from_group gi more members =
        from_cands gi members (keep (λ id. not (is_used (gi, id) g.st.deleter_used)) members)

-- Asks the next deleter, or the showman where several may be next.
unfoldable pub final_next_deleter : Game → Turn
unfolding final_remaining_themes slots_from deleter_loop
final_next_deleter g =
    if leb (length (final_remaining_themes g)) 1
    then goto Tail.final_play_last_theme g
    else (let slots = slots_from 0 g.st.final_groups in deleter_loop (length slots) slots g)
