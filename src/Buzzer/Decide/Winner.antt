-- ===== src/Buzzer/Decide/Winner.antt =====
-- internal/buzzer/arm.go: the winner is one of those who pressed.
use sigame_server.Prelude.{
  All, All-map, Bool, List, String, [], arith, elem, false, if◌then◌else◌, int_eq, keep, length,
  ltb, map, negsuc, pos, refl, string_eq, subst, suc, sym, true, zero, ℕ, ℤ, ◌<◌, ◌==◌, ◌∷◌, ◌≡◌,
}
use sigame_server.Pack.{Float64}
use sigame_server.Buzzer.Floats.{Floats, lit, scaled_index, unit_float, weighted_pick, ◌≺◌, ◌⊖◌}
use sigame_server.Buzzer.Settings.{Mode, TieBreak}
use sigame_server.Buzzer.Arm.{Arm, ArmState, Press, Result, ResultKind}
use sigame_server.Buzzer.Decide.{
  argmax, blank_result, break_tie, by_rule_of, choose, choose_by, clean_first, conclude, contested,
  decide, equal_reactions, force_resolve, in_tie, is_over, least_by, least_key, likelihood, lottery,
  margin_of, pick_min, pid_at, pids, rank, ranked, rotate_key, window_lottery,
}
use sigame_server.Buzzer.Decide.Draw.{
  All-keep, All-sort_by, Below, Draws, argmax-bound, least_by-some, length-likelihood,
  weighted_pick-Below,
}

module _ (P : String → Type 0) where
  -- Every press is of a player for whom P holds.
  abbrev Of : List Press → Type 0
  Of = All (λ pr. P pr.pid)

  pid_at-pos : (i : ℕ) (ps : List Press) → Of ps → i < length ps → P (pid_at (pos i) ps)
  pid_at-pos i [] h k = ground arith
  pid_at-pos zero (p ∷ ps) h k = h.0
  pid_at-pos (suc i) (p ∷ ps) h k = pid_at-pos i ps (h.1) (omega (arith, k))

  pid_at-Of : (i : ℤ) (ps : List Press) → Of ps → Below i (length ps) → P (pid_at i ps)
  pid_at-Of (pos i) ps h k = pid_at-pos i ps h k
  pid_at-Of (negsuc i) ps h k = ground arith

  module _ ⦃fl : Floats⦄ where
    lottery-Of :
        (u : Float64) (tie : List Press) → Draws u → Of tie → 0 < length tie → P (lottery u tie)
    lottery-Of u tie h k n = pid_at-Of (scaled_index u (length tie)) tie k (h (length tie) n)

    pick_min-Of :
        (key : Press → ℤ) (u : Float64) (tie : List Press)
        → Draws u
        → Of tie
        → 0 < length tie
        → P (pick_min key u tie)
    unfolding pick_min
    pick_min-Of key u [] h k n = ground arith
    pick_min-Of key u (p ∷ ps) h k n =
        lottery-Of u (least_by key (p ∷ ps)) h
          (All-keep (λ pr. P pr.pid) (λ q. key q == least_key key (key p) (p ∷ ps)) (p ∷ ps) k)
          (least_by-some key p ps)

    weighted-Of :
        (u : Float64) (tie : List Press)
        → Draws u
        → Of tie
        → 0 < length tie
        → P (pid_at (weighted_pick (likelihood tie) u) tie)
    weighted-Of u tie h k n = pid_at-Of (weighted_pick (likelihood tie) u) tie k (
        subst (Below (weighted_pick (likelihood tie) u)) (length-likelihood tie) (
          weighted_pick-Below (likelihood tie) u h
            (subst (λ m. 0 < m) (sym (length-likelihood tie)) n)))

    -- A result that names a winner names one for whom P holds.
    Names : Result → Type 0
    Names r = r.kind ≡ ResultKind.winner → P r.winner_id

    by_rule_of-Names :
        (rule : TieBreak) (a : Arm) (tie : List Press) (r : Result)
        → Draws (unit_float a.seed "tie")
        → Of tie
        → 0 < length tie
        → Names (by_rule_of rule a tie r)
    unfolding by_rule_of break_tie Names
    by_rule_of-Names TieBreak.all_play a tie r h k n p = ground arith
    by_rule_of-Names TieBreak.random a tie r h k n p = lottery-Of _ tie h k n
    by_rule_of-Names TieBreak.most_likely a tie r h k n p =
        pid_at-pos (argmax (likelihood tie)) tie k (
          subst (λ m. argmax (likelihood tie) < m) (length-likelihood tie)
            (argmax-bound (likelihood tie) (subst (λ m. 0 < m) (sym (length-likelihood tie)) n)))
    by_rule_of-Names TieBreak.lowest_score a tie r h k n p =
        pick_min-Of (λ x. x.ap.score) _ tie h k n
    by_rule_of-Names TieBreak.fewest_buttons_won a tie r h k n p =
        pick_min-Of (λ x. x.ap.buttons_won) _ tie h k n
    by_rule_of-Names TieBreak.rotate a tie r h k n p = pick_min-Of (rotate_key a) _ tie h k n
    by_rule_of-Names TieBreak.likelihood a tie r h k n p = weighted-Of _ tie h k n
    by_rule_of-Names TieBreak.unknown a tie r h k n p = weighted-Of _ tie h k n

    if-Names : (b : Bool) (x y : Result) → Names x → Names y → Names (if b then x else y)
    if-Names true x y h k = h
    if-Names false x y h k = k

    clean_first-Names :
        (a : Arm) (tie clean : List Press) (r : Result)
        → Draws (unit_float a.seed "tie")
        → Of tie
        → 0 < length tie
        → Of clean
        → Names (clean_first a tie clean r)
    unfolding Names
    clean_first-Names a tie [] r h k n c = by_rule_of-Names a.s.tie_break a tie r h k n
    clean_first-Names a tie (p ∷ []) r h k n c =
        if-Names (ltb 1 (length tie)) _ _ (λ q. c.0) (by_rule_of-Names a.s.tie_break a tie r h k n)
    clean_first-Names a tie (p ∷ q ∷ clean) r h k n c =
        if-Names (ltb (length (p ∷ q ∷ clean)) (length tie)) _ _
          (by_rule_of-Names a.s.tie_break a (p ∷ q ∷ clean) r h c (omega arith))
          (by_rule_of-Names a.s.tie_break a tie r h k n)

    contested-Names :
        (a : Arm) (lead : Press) (ps : List Press) (r : Result)
        → Draws (unit_float a.seed "tie")
        → P lead.pid
        → Of ps
        → Names (contested a lead ps r)
    unfolding Names
    contested-Names a lead [] r h k c = λ q. k
    contested-Names a lead (p ∷ ps) r h k c =
        clean_first-Names a (lead ∷ p ∷ ps) (keep (λ q. q.clean) (lead ∷ p ∷ ps)) _ h (k, c)
          (omega arith) (All-keep (λ pr. P pr.pid) (λ q. q.clean) (lead ∷ p ∷ ps) (k, c))

    equal-Names :
        (a : Arm) (lead : Press) (ps : List Press) (r : Result)
        → Draws (unit_float a.seed "tie")
        → P lead.pid
        → Of ps
        → Names (equal_reactions a lead ps r)
    unfolding equal_reactions Names
    equal-Names a lead ps r h k c =
        let tie = lead ∷ keep (λ p. fl.eq p.t_final lead.t_final) ps in
        let won =
          lottery-Of (unit_float a.seed "tie") tie h
            (k, All-keep (λ pr. P pr.pid) (λ p. fl.eq p.t_final lead.t_final) ps c) (omega arith) in
        if-Names (ltb 1 (length tie)) _ _ (λ q. won) (λ q. won)

    choose_by-Names :
        (mode : Mode) (a : Arm) (lead : Press) (ps : List Press) (r : Result)
        → Draws (unit_float a.seed "tie")
        → P lead.pid
        → Of ps
        → Names (choose_by mode a lead ps r)
    unfolding choose_by decide window_lottery Names
    choose_by-Names Mode.server_arrival a lead ps r h k c = λ q. k
    choose_by-Names Mode.random_window a lead ps r h k c =
        λ q. lottery-Of (unit_float a.seed "tie") (lead ∷ ps) h (k, c) (omega arith)
    choose_by-Names Mode.client_reaction a lead ps r h k c = equal-Names a lead ps r h k c
    choose_by-Names Mode.anchored_hybrid a lead ps r h k c =
        contested-Names a lead (keep (in_tie a.s lead) ps) r h k
          (All-keep (λ pr. P pr.pid) (in_tie a.s lead) ps c)
    choose_by-Names Mode.written_all a lead ps r h k c =
        contested-Names a lead (keep (in_tie a.s lead) ps) r h k
          (All-keep (λ pr. P pr.pid) (in_tie a.s lead) ps c)
    choose_by-Names Mode.unknown a lead ps r h k c =
        contested-Names a lead (keep (in_tie a.s lead) ps) r h k
          (All-keep (λ pr. P pr.pid) (in_tie a.s lead) ps c)

    choose-Names :
        (a : Arm) (ps : List Press) (r : Result)
        → Draws (unit_float a.seed "tie")
        → Of ps
        → Names r
        → Names (conclude a ps r)
    unfolding conclude choose
    choose-Names a [] r h k c = c
    choose-Names a (lead ∷ ps) r h k c =
        choose_by-Names a.s.mode a lead ps
          (record r { margin = margin_of lead ps; kind = ResultKind.winner }) h (k.0) (k.1)

    conclude-Names :
        (a : Arm) (r : Result)
        → Draws (unit_float a.seed "tie")
        → Of a.presses
        → Names r
        → Names (conclude a (ranked a) r)
    unfolding ranked
    conclude-Names a r h k c =
        choose-Names a (ranked a) r h
          (All-sort_by (λ pr. P pr.pid) (λ x y. x.t_final ≺ y.t_final) a.presses k) c

elem_later : (x y : String) (xs : List String) → elem x xs ≡ true → elem x (y ∷ xs) ≡ true
elem_later x y xs h = by_test (y == x)
  where
    by_test : (b : Bool) → (if b then true else elem x xs) ≡ true
    by_test true = refl
    by_test false = h

elem_first : (x : String) (xs : List String) → elem x (x ∷ xs) ≡ true
elem_first x xs = ground (arith, string_eq.same_iff x x)

-- Every press is of one of the players who pressed.
own_pids : (ps : List Press) → All (λ pr. elem pr.pid (pids ps) ≡ true) ps
own_pids [] = tt
own_pids (p ∷ ps) = (
  elem_first p.pid (pids ps),
  All-map (λ pr. elem pr.pid (pids ps) ≡ true) (λ pr. elem pr.pid (pids (p ∷ ps)) ≡ true)
      (λ pr. elem_later pr.pid p.pid (pids ps)) ps (own_pids ps),
)

module _ ⦃fl : Floats⦄ where
  -- When the draw of the seed hits an index of every non-empty list, the decision of an arm that is
  -- not over yet names as the winner, if it has one, a player with a press that counts.
  pub force_resolve-Winner :
      (now : Float64) (a : Arm)
      → is_over a.state ≡ false
      → Draws (unit_float a.seed "tie")
      → (force_resolve now a).result.kind ≡ ResultKind.winner
      → elem ((force_resolve now a).result.winner_id) (pids a.presses) ≡ true
  unfolding force_resolve Names
  force_resolve-Winner now a open_ h = by_state (is_over a.state) open_
    where
      blank : Result
      blank = record (blank_result a now) {
        collect = if a.has_first then now ⊖ a.first_recv else lit 0;
        ranking = map rank (ranked a);
      }

      decided : Arm
      decided = record a { state = ArmState.resolved; result = conclude a (ranked a) blank }

      by_state :
          (b : Bool)
          → b ≡ false
          → (if b then a else decided).result.kind ≡ ResultKind.winner
          → elem ((if b then a else decided).result.winner_id) (pids a.presses) ≡ true
      by_state true p q = ground arith
      by_state false p q =
          conclude-Names (λ id. elem id (pids a.presses) ≡ true) a blank h (own_pids a.presses)
            (λ e. ground arith) q
