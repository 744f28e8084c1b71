-- ===== src/Engine/Content.antt =====
-- internal/engine/question.go, "content" and "reveal / end": content groups and their pace.
pub mod Reveal
pub mod Groups
use sigame_server.Prelude.{
  Bool, List, String, [], add64, all, false, get_elem?, if◌then◌else◌, leb_ℤ, ltb_ℤ, map, negsuc,
  none, not, pos, some, string_eq, suc, true, ℤ, ◌&&◌, ◌++◌, ◌==◌, ◌∷◌, ◌▷◌,
}
use sigame_server.Pack.{ContentItem, Pack, answer_type_eq, effective_placement, round_type_eq}
use sigame_server.Pack
use sigame_server.Engine.Rules.{mode_eq}
use sigame_server.Engine.Kinds.{QSub, TimerKind, sub_eq}
use sigame_server.Engine.State.{ContentGroup, Player, QuestionState, active_players, player}
use sigame_server.Engine.Event.{ContentItemView, EvType, Payload}
use sigame_server.Engine.Game.{Game, emit_all, room, set_sub, with_question, with_state}
use sigame_server.Engine.Timers.{resume_timer, start_timer, timer_of_kind}
use sigame_server.Engine.Tail.{Tail, Turn, finish, goto, on_question}
use sigame_server.Engine.Score.{any_can_press, eligible_ids}
use Prim.Native.String.{count}

unfoldable pub view_items : List ContentItem → List ContentItemView
view_items = map view
  where
    view : ContentItem → ContentItemView
    view it = record {
      type = it.type;
      text = it.text;
      media_id = it.media_id;
      url = it.url;
      placement = effective_placement it;
      duration_ms = it.duration_ms;
    }

-- The reading time of a text, rounded up to a millisecond.
unfoldable pub reading_ms : Game → String → ℤ
reading_ms g text =
    let h = g.host in
    h.to_int (
      h.ceil (
        h.div (h.mul (h.of_int (pos (count text))) (h.of_int (pos 1000)))
          (h.of_int g.st.rules.reading_speed)))

-- -1 is a medium of unknown duration.
unfoldable pub item_duration : Game → ContentItem → ℤ
unfolding reading_ms
item_duration g it = if ltb_ℤ (pos 0) it.duration_ms then it.duration_ms else by_type it.type
  where
    by_type : Pack.ContentType → ℤ
    by_type Pack.ContentType.text =
        if leb_ℤ g.st.rules.reading_speed (pos 0)
        then pos 0
        else add64 (reading_ms g it.text) g.st.times.reflection_ms
    by_type Pack.ContentType.image = g.st.times.image_ms
    by_type Pack.ContentType.html = g.st.times.image_ms
    by_type Pack.ContentType.audio = negsuc 0
    by_type Pack.ContentType.video = negsuc 0

-- An item is appended to the last group, or opens a new one.
abbrev pub add_last : ContentItem → List (List ContentItem) → List (List ContentItem)
add_last it [] = []
add_last it (grp ∷ []) = (grp ++ it ∷ []) ∷ []
add_last it (grp ∷ next ∷ grps) = grp ∷ add_last it (next ∷ grps)

-- The first loop of `buildGroups`: an item that does not wait leaves its group open for the next.
unfoldable pub group_loop :
    List (List ContentItem) → Bool → List ContentItem → List (List ContentItem)
group_loop grps opened [] = grps
group_loop grps opened (it ∷ its) =
    group_loop (if opened then add_last it grps else grps ++ (it ∷ []) ∷ []) it.no_wait its

abbrev pub empty_group : List ContentItem → ContentGroup
empty_group items = record {
  items = items;
  wait_ms = pos 0;
  media_wait = false;
  media_id = "";
  media_url = "";
  partial_img = false;
}

-- One item of the second loop.
abbrev pub plan_item : Game → ContentGroup → ContentItem → ContentGroup
plan_item g grp it =
    let d = item_duration g it in
    if ltb_ℤ d (pos 0)
    then record grp { media_wait = true; media_id = it.media_id; media_url = it.url }
    else if ltb_ℤ grp.wait_ms d
    then record grp { wait_ms = d }
    else grp

unfoldable pub plan_items : Game → ContentGroup → List ContentItem → ContentGroup
plan_items g grp [] = grp
plan_items g grp (it ∷ its) = plan_items g (plan_item g grp it) its

unfoldable pub build_groups : Game → List ContentItem → List ContentGroup
unfolding group_loop plan_items
build_groups g items = map (λ its. plan_items g (empty_group its) its) (group_loop [] false items)

unfoldable pub play_content : Game → Turn
unfolding set_sub
play_content g =
    with_question (λ q. record q { cursor = 0; content_done = false }) g
    ▷ set_sub QSub.content
    ▷ goto Tail.show_group

abbrev show_items : QuestionState → ContentGroup → Game → Game
show_items q grp =
    emit_all EvType.content (Payload.content q.phase q.cursor (view_items grp.items) grp.wait_ms)

abbrev pub with_all_players : (Player → Player) → Game → Game
with_all_players f = with_state λ s. record s { players = map f s.players }

abbrev pub wait_for_next : Game → Turn
wait_for_next g = finish (with_question (λ q. record q { wait_next = true }) g)

-- The rest of `showGroup`, once the group is shown.
abbrev pace_group : ContentGroup → Game → Turn
pace_group grp g =
    if g.st.rules.managed
    then wait_for_next g
    else if grp.media_wait
    then finish (
        with_question (λ q. record q { awaiting_media_ids = true }) g
        ▷ with_all_players (λ p. record p { media_done = false })
        ▷ emit_all EvType.media_wait (Payload.media_wait grp.media_id grp.media_url)
        ▷ start_timer TimerKind.media_fallback grp.wait_ms "")
    else if leb_ℤ grp.wait_ms (pos 0)
    then wait_for_next g
    else finish (start_timer TimerKind.content grp.wait_ms "" g)

unfoldable pub show_group : Game → Turn
unfolding start_timer view_items
show_group = on_question λ q g. elim (get_elem? q.groups q.cursor) [
  | none ↦ goto Tail.content_finished g
  | some grp ↦ pace_group grp (show_items q grp g)
]

unfoldable pub content_group_done : Game → Turn
content_group_done = on_question λ q g.
    if q.sub == QSub.content
    then with_question
        (λ q. record q { wait_next = false; awaiting_media_ids = false; cursor = suc q.cursor }) g
      ▷ goto Tail.show_group
    else finish g

unfoldable pub all_media_done : Game → Bool
unfolding active_players
all_media_done g = all (λ p. p.media_done) (active_players g.st)

abbrev show_options : QuestionState → Game → Game
show_options q g =
    if q.answer_type == Pack.AnswerType.select && not q.options_shown
    then with_question (λ q. record q { options_shown = true }) g
      ▷ emit_all EvType.answer_options (
          Payload.answer_options
            (map (λ o. record { label = o.label; content = view_items o.content }) q.options)
            g.st.rules.display_answer_options_labels g.st.rules.display_answer_options_one_by_one)
    else g

-- Opens the button after the content, or again after a wrong answer.
unfoldable pub arm_button : Bool → Game → Game
unfolding set_sub start_timer resume_timer timer_of_kind eligible_ids
arm_button again g = elim (g.st.question) [
  | none ↦ g
  | some q ↦
      let armed =
        with_question (λ q. record q { armed = true }) g
        ▷ set_sub QSub.button_wait
        ▷ room EvType.button_arm_request
            (Payload.button_arm_request q.id (eligible_ids g) q.thinking_remain again) in
      elim (timer_of_kind TimerKind.button_pressing armed) [
        | none ↦ start_timer TimerKind.button_pressing q.thinking_remain "" armed
        | some t ↦
            if t.paused
            then resume_timer t armed
            else start_timer TimerKind.button_pressing q.thinking_remain "" armed
      ]
]

-- Who answers a direct question.
abbrev ask_direct_answer : QuestionState → Game → Turn
ask_direct_answer q g = elim (player g.st q.answerer_id) [
  | none ↦ goto Tail.show_answer g
  | some p ↦ goto (Tail.ask_answer p.id TimerKind.solo_answering g.st.times.solo_answering_ms) g
]

abbrev begin_answering : QuestionState → Game → Turn
begin_answering q g =
    if q.button
    then (if not (any_can_press g)
        then goto Tail.show_answer g
        else if q.armed
        then finish (
            set_sub QSub.button_wait g ▷ start_timer TimerKind.button_pressing q.thinking_remain "")
        else finish (arm_button false g))
    else if q.hidden
    then goto Tail.hidden_answering_begin g
    else if q.direct
    then ask_direct_answer q g
    else finish (set_sub QSub.answering g)

-- Runs after the last content group.
unfoldable pub content_finished : Game → Turn
unfolding arm_button any_can_press
content_finished = on_question λ q g.
    with_question (λ q. record q { content_done = true }) g ▷ show_options q ▷ begin_answering q
