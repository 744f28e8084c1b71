-- ===== src/Buzzer/Decide.antt =====
-- internal/buzzer/arm.go: the tie-breaks and the decision of the button.
pub mod Draw
pub mod Winner
pub mod Due
use sigame_server.Prelude.{
  Bool, List, Option, String, [], add64, false, get_elem?, if◌then◌else◌, insert_by, int_eq, keep,
  length, ltb, ltb_ℤ, map, nat_beq, negsuc, none, pos, pos_part, some, sort_by, sub64, sub_ℕ, suc,
  true, ℕ, ℤ, ◌%◌, ◌+◌, ◌==◌, ◌∷◌,
}
use sigame_server.Pack.{Float64}
use sigame_server.Buzzer.Floats.{
  Floats, clamp, lit, phi, scaled_index, unit_float, weighted_pick, ◌≺◌, ◌≼◌, ◌⊕◌, ◌⊖◌, ◌⊗◌, ◌⊘◌,
}
use sigame_server.Buzzer.Settings.{Mode, Settings, TieBreak, TieMode}
use sigame_server.Buzzer.Constants.{eps_input}
use sigame_server.Buzzer.Arm.{
  Arm, ArmPlayer, ArmState, Press, Ranking, Result, ResultKind, no_result,
}

-- Go's remainder, which takes the sign of the dividend.
unfoldable pub go_rem : ℤ → ℕ → ℤ
go_rem (pos a) n = pos (a % n)
go_rem (negsuc a) n = sub_ℕ 0 ((a + 1) % n)

abbrev pub tie_break_name : TieBreak → String
tie_break_name TieBreak.likelihood = "likelihood"
tie_break_name TieBreak.most_likely = "mostLikely"
tie_break_name TieBreak.random = "random"
tie_break_name TieBreak.lowest_score = "lowestScore"
tie_break_name TieBreak.fewest_buttons_won = "fewestButtonsWon"
tie_break_name TieBreak.rotate = "rotate"
tie_break_name TieBreak.all_play = "allPlay"
tie_break_name TieBreak.unknown = ""

abbrev pub pids : List Press → List String
pids = map (λ p. p.pid)

-- The player at an index of the list; out of range, where the source would fault, there is none.
abbrev pub pid_at : ℤ → List Press → String
pid_at (pos i) ps = elim (get_elem? ps i) [ none ↦ "" | some p ↦ p.pid ]
pid_at (negsuc i) ps = ""

abbrev pub least_key : (Press → ℤ) → ℤ → List Press → ℤ
least_key key best [] = best
least_key key best (p ∷ ps) = least_key key (if ltb_ℤ (key p) best then key p else best) ps

-- The presses with the least key, in order.
abbrev pub least_by : (Press → ℤ) → List Press → List Press
least_by key [] = []
least_by key (p ∷ ps) =
    let best = least_key key (key p) (p ∷ ps) in keep (λ q. key q == best) (p ∷ ps)

abbrev pub greatest_seat : ℤ → List ArmPlayer → ℤ
greatest_seat acc [] = acc
greatest_seat acc (p ∷ ps) = greatest_seat (if ltb_ℤ acc p.seat then p.seat else acc) ps

-- How many seats the player sits after the previous winner.
unfoldable pub rotate_key : Arm → Press → ℤ
unfolding go_rem
rotate_key a p =
    let n = pos_part (add64 (greatest_seat (pos 0) a.players) (pos 1)) in
    go_rem (add64 (go_rem (sub64 (sub64 p.ap.seat a.rotate_after) (pos 1)) n) (pos n)) n

abbrev pub deadline_in : ArmState → Arm → Option Float64
deadline_in ArmState.armed a = some a.disarm_at
deadline_in ArmState.collecting a = some a.close_at
deadline_in ArmState.draining a = some a.drain_end
deadline_in _ a = none

unfoldable pub next_deadline : Arm → Option Float64
next_deadline a = deadline_in a.state a

unfoldable pub set_rotate_after : ℤ → Arm → Arm
set_rotate_after seat a = record a { rotate_after = seat }

module _ ⦃fl : Floats⦄ where
  unfoldable pub tie_window : Settings → Press → Press → Float64
  unfolding clamp
  tie_window s lead x = go s.tie_mode
    where
      go : TieMode → Float64
      go TieMode.resolution = fl.of_int s.tie_ms
      go _ =
          clamp (lit 2 ⊗ fl.hypot lead.err x.err ⊕ lit 2) (fl.of_int s.tie_min)
            (fl.of_int s.tie_max)

  -- The chance that p came before q, as the normal distribution has it.
  unfoldable pub before_chance : Press → Press → Float64
  unfolding phi
  before_chance p q =
      let d = fl.hypot p.err q.err in
      phi ((q.t_final ⊖ p.t_final) ⊘ (if d ≼ lit 0 then eps_input else d))

  -- The product over the other presses; `j` counts them, `i` is the place of p.
  abbrev pub weight_from : ℕ → ℕ → Float64 → Press → List Press → Float64
  weight_from i j acc p [] = acc
  weight_from i j acc p (q ∷ qs) =
      weight_from i (suc j) (if nat_beq i j then acc else acc ⊗ before_chance p q) p qs

  abbrev pub weights_from : ℕ → List Press → List Press → List Float64
  weights_from i tie [] = []
  weights_from i tie (p ∷ ps) = weight_from i 0 (lit 1) p tie ∷ weights_from (suc i) tie ps

  unfoldable pub likelihood : List Press → List Float64
  likelihood tie = weights_from 0 tie tie

  -- The first greatest weight.
  abbrev pub best_from : ℕ → ℕ → Float64 → List Float64 → ℕ
  best_from i best w [] = best
  best_from i best w (v ∷ vs) =
      if w ≺ v then best_from (suc i) i v vs else best_from (suc i) best w vs

  abbrev pub argmax : List Float64 → ℕ
  argmax [] = 0
  argmax (w ∷ ws) = best_from 1 0 w ws

  unfoldable pub pick_min : (Press → ℤ) → Float64 → List Press → String
  pick_min key u tie = let cands = least_by key tie in pid_at (scaled_index u (length cands)) cands

  abbrev pub lottery : Float64 → List Press → String
  lottery u tie = pid_at (scaled_index u (length tie)) tie

  -- The rule of the host on a contested button.
  unfoldable pub break_tie : Arm → TieBreak → Float64 → List Press → String
  unfolding pick_min weighted_pick likelihood
  break_tie a TieBreak.all_play u tie = ""
  break_tie a TieBreak.random u tie = lottery u tie
  break_tie a TieBreak.most_likely u tie = pid_at (pos (argmax (likelihood tie))) tie
  break_tie a TieBreak.lowest_score u tie = pick_min (λ p. p.ap.score) u tie
  break_tie a TieBreak.fewest_buttons_won u tie = pick_min (λ p. p.ap.buttons_won) u tie
  break_tie a TieBreak.rotate u tie = pick_min (rotate_key a) u tie
  break_tie a _ u tie = pid_at (weighted_pick (likelihood tie) u) tie

  abbrev pub all_play_result : TieBreak → List Press → Result → Result
  all_play_result TieBreak.all_play tie r = record r {
    kind = ResultKind.all_play;
    winner_id = "";
    tie = pids tie;
  }
  all_play_result _ tie r = r

  unfoldable pub by_rule_of : TieBreak → Arm → List Press → Result → Result
  unfolding break_tie unit_float
  by_rule_of rule a tie r = all_play_result rule tie (record r {
    rule = tie_break_name rule;
    winner_id = break_tie a rule (unit_float a.seed "tie") tie;
  })

  abbrev pub by_rule : Arm → List Press → Result → Result
  by_rule a tie r = by_rule_of a.s.tie_break a tie r

  -- Clean presses come before the others of a tie.
  abbrev pub clean_first : Arm → List Press → List Press → Result → Result
  clean_first a tie [] r = by_rule a tie r
  clean_first a tie (p ∷ []) r =
      if ltb 1 (length tie)
      then record r { rule = "cleanFirst"; winner_id = p.pid }
      else by_rule a tie r
  clean_first a tie (p ∷ q ∷ clean) r =
      if ltb (length (p ∷ q ∷ clean)) (length tie)
      then by_rule a (p ∷ q ∷ clean) r
      else by_rule a tie r

  unfoldable pub in_tie : Settings → Press → Press → Bool
  unfolding tie_window
  in_tie s lead p = (p.t_final ⊖ lead.t_final) ≼ tie_window s lead p

  abbrev pub contested : Arm → Press → List Press → Result → Result
  contested a lead [] r = record r { rule = "single"; winner_id = lead.pid }
  contested a lead (p ∷ ps) r =
      clean_first a (lead ∷ p ∷ ps) (keep (λ q. q.clean) (lead ∷ p ∷ ps))
        (record r { contested = true; tie = pids (lead ∷ p ∷ ps) })

  unfoldable pub decide : Arm → Press → List Press → Result → Result
  decide a lead others r = contested a lead (keep (in_tie a.s lead) others) r

  abbrev pub rank : Press → Ranking
  rank p = record {
    player_id = p.pid;
    reaction = p.reaction;
    err = p.err;
    rtt = p.ap.m.model.rtt_ref;
    u = p.ap.m.model.u;
    source = p.source;
    flags = p.flags;
  }

  abbrev pub blank_result : Arm → Float64 → Result
  blank_result a now = record no_result {
    arm_id = a.id;
    kind = ResultKind.nobody;
    tie_break = a.s.tie_break;
    resolved_at = now;
    seed = fl.hex_text a.seed;
  }

  unfoldable pub ranked : Arm → List Press
  unfolding sort_by insert_by
  ranked a = sort_by (λ x y. x.t_final ≺ y.t_final) a.presses

  unfoldable pub window_lottery : Arm → List Press → Result → Result
  unfolding unit_float
  window_lottery a ps r = record r {
    tie_break = TieBreak.random;
    rule = "random";
    contested = ltb 1 (length ps);
    winner_id = lottery (unit_float a.seed "tie") ps;
    tie = pids ps;
  }

  unfoldable pub equal_reactions : Arm → Press → List Press → Result → Result
  unfolding unit_float
  equal_reactions a lead others r =
      let tie = lead ∷ keep (λ p. fl.eq p.t_final lead.t_final) others in
      let winner = lottery (unit_float a.seed "tie") tie in
      if ltb 1 (length tie)
      then record r {
        contested = true;
        tie_break = TieBreak.random;
        rule = "random";
        tie = pids tie;
        winner_id = winner;
      }
      else record r { rule = "first"; winner_id = winner }

  -- The choice of the winner among the ranked presses, by the mode.
  unfoldable pub choose_by : Mode → Arm → Press → List Press → Result → Result
  unfolding decide
  choose_by Mode.server_arrival a lead others r = record r { winner_id = lead.pid; rule = "first" }
  choose_by Mode.random_window a lead others r = window_lottery a (lead ∷ others) r
  choose_by Mode.client_reaction a lead others r = equal_reactions a lead others r
  choose_by _ a lead others r = decide a lead others r

  unfoldable pub choose : Arm → Press → List Press → Result → Result
  choose a lead others r = choose_by a.s.mode a lead others r

  abbrev pub margin_of : Press → List Press → Float64
  margin_of lead [] = lit 0
  margin_of lead (p ∷ ps) = p.t_final ⊖ lead.t_final

  unfoldable pub conclude : Arm → List Press → Result → Result
  unfolding choose
  conclude a [] r = r
  conclude a (lead ∷ others) r =
      choose a lead others (record r { margin = margin_of lead others; kind = ResultKind.winner })

  abbrev pub is_over : ArmState → Bool
  is_over ArmState.resolved = true
  is_over ArmState.disarmed = true
  is_over _ = false

  -- The result is in the arm.
  unfoldable pub force_resolve : Float64 → Arm → Arm
  unfolding ranked
  force_resolve now a = if is_over a.state then a else record a {
    state = ArmState.resolved;
    result = conclude a (ranked a) (record (blank_result a now) {
      collect = if a.has_first then now ⊖ a.first_recv else lit 0;
      ranking = map rank (ranked a);
    });
  }

  unfoldable pub resolve_at : Float64 → Float64 → Arm → Arm × Bool
  unfolding force_resolve
  resolve_at deadline now a = if now ≺ deadline then (a, false) else (force_resolve now a, true)

  abbrev pub resolve_by : ArmState → Float64 → Arm → Arm × Bool
  resolve_by ArmState.resolved now a = (a, true)
  resolve_by ArmState.disarmed now a = (a, true)
  resolve_by ArmState.armed now a =
      if now ≺ a.disarm_at
      then (a, false)
      else resolve_at a.drain_end now (record a { state = ArmState.draining })
  resolve_by ArmState.draining now a = resolve_at a.drain_end now a
  resolve_by ArmState.collecting now a = resolve_at a.close_at now a

  -- The second component says whether the result is due.
  unfoldable pub resolve : Float64 → Arm → Arm × Bool
  resolve now a = resolve_by a.state now a

  unfoldable pub disarm : Float64 → String → Arm → Arm
  disarm now reason a = if is_over a.state then a else record a {
    state = ArmState.disarmed;
    result = record (blank_result a now) { rule = reason };
  }
