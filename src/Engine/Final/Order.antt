-- ===== src/Engine/Final/Order.antt =====
-- internal/engine/final.go: the order in which the players of the final round delete themes.
use sigame_server.Prelude.{
  Bool, List, String, [], ap, arith, false, if◌then◌else◌, keep, leb_ℤ, lt→ltb, map, refl, sym,
  true, ℕ, ◌%◌, ◌++◌, ◌+◌, ◌-◌, ◌<◌, ◌∙◌, ◌∷◌, ◌≡◌, ◌≤ℤ◌,
}
use mathlib.Core.List.{Permᴰ}
use sigame_server.Engine.Game.{Game}
use sigame_server.Engine.Table.{ids}
use sigame_server.Engine.State.{Player, active_players}
use native.Mathlib.Nat.{mod-add-mod, mod-lt, mod_self, mod-eq_of_lt}
use sigame_server.Engine.Final.{
  final_build_order, final_offset, group_by_score, insert_by_score, join_group, sort_by_score,
}

pred_mod : (n y : ℕ) → 0 < n → (y + 1) % n ≡ 0 → y % n ≡ n - 1
pred_mod n y hn h =
    ground (arith, mod-add-mod y n 1, mod-lt y hn, mod_self n, mod-eq_of_lt {n = y % n + 1} {m = n})

offset_mod : (n d : ℕ) → 0 < n → (d + (n - d % n) % n) % n ≡ 0
offset_mod n d hn = ground (
  arith,
  mod-add-mod d n ((n - d % n) % n),
  mod-lt d hn,
  mod_self n,
  mod-eq_of_lt {n = n - d % n} {m = n},
  mod-eq_of_lt {n = 0} {m = n},
)

-- When d themes must go and n players take turns from the slot that the offset names, the last
-- deletion falls to the last slot.
pub final_offset-last : (n d : ℕ) → 0 < n → 0 < d → (d - 1 + final_offset n d) % n ≡ n - 1
unfolding final_offset
final_offset-last n d hn hd = ground (
  arith,
  pred_mod n (d - 1 + (n - d % n) % n) hn,
  offset_mod n d hn,
  lt→ltb 0 n hn,
  lt→ltb 0 d hd,
)

-- Ascending scores.
abbrev pub Ascending : List Player → Type 0
Ascending [] = Unit
Ascending (p ∷ []) = Unit
Ascending (p ∷ q ∷ ps) = (p.score ≤ℤ q.score) × Ascending (q ∷ ps)

insert_by_score-Ascending :
    (p : Player) (ps : List Player) → Ascending ps → Ascending (insert_by_score p ps)
unfolding insert_by_score
insert_by_score-Ascending p [] h = tt
insert_by_score-Ascending p (q ∷ []) h = ground arith
insert_by_score-Ascending p (q ∷ r ∷ ps) h =
    ground (arith, insert_by_score-Ascending p (r ∷ ps) (h.1))

sort_by_score-Ascending : (ps : List Player) → Ascending (sort_by_score ps)
unfolding sort_by_score
sort_by_score-Ascending [] = tt
sort_by_score-Ascending (p ∷ ps) =
    insert_by_score-Ascending p (sort_by_score ps) (sort_by_score-Ascending ps)

abbrev pub concat : List (List Player) → List Player
concat [] = []
concat (ps ∷ pss) = ps ++ concat pss

concat-join :
    (p : Player) (grps : List (List Player)) → concat (join_group p grps) ≡ p ∷ concat grps
unfolding join_group
concat-join p [] = refl
concat-join p ([] ∷ grps) = refl
concat-join p ((q ∷ qs) ∷ grps) = ground arith

concat-group_by_score : (ps : List Player) → concat (group_by_score ps) ≡ ps
unfolding group_by_score
concat-group_by_score [] = refl
concat-group_by_score (p ∷ ps) =
    concat-join p (group_by_score ps) ∙ ap (λ qs. p ∷ qs) (concat-group_by_score ps)

perm_refl : (ps : List Player) → Permᴰ ps ps
perm_refl [] = Permᴰ.nil
perm_refl (p ∷ ps) = Permᴰ.cons refl (perm_refl ps)

insert_by_score-Perm : (p : Player) (ps : List Player) → Permᴰ (insert_by_score p ps) (p ∷ ps)
unfolding insert_by_score
insert_by_score-Perm p [] = perm_refl (p ∷ [])
insert_by_score-Perm p (q ∷ qs) = by_test (leb_ℤ p.score q.score) (insert_by_score-Perm p qs)
  where
    by_test :
        (b : Bool)
        → Permᴰ (insert_by_score p qs) (p ∷ qs)
        → Permᴰ (if b then p ∷ q ∷ qs else q ∷ insert_by_score p qs) (p ∷ q ∷ qs)
    by_test true h = perm_refl (p ∷ q ∷ qs)
    by_test false h = Permᴰ.trans (Permᴰ.cons refl h) (Permᴰ.swap refl refl)

sort_by_score-Perm : (ps : List Player) → Permᴰ (sort_by_score ps) ps
unfolding sort_by_score
sort_by_score-Perm [] = Permᴰ.nil
sort_by_score-Perm (p ∷ ps) =
    Permᴰ.trans (insert_by_score-Perm p (sort_by_score ps))
      (Permᴰ.cons refl (sort_by_score-Perm ps))

-- The participants of the final round.
abbrev pub participants : Game → List Player
participants g = keep (λ p. p.final_in_game) (active_players g.st)

abbrev pub flat_ids : List (List String) → List String
flat_ids [] = []
flat_ids (xs ∷ xss) = xs ++ flat_ids xss

ids-append : (ps qs : List Player) → ids (ps ++ qs) ≡ ids ps ++ ids qs
ids-append [] qs = refl
ids-append (p ∷ ps) qs = ap (λ w. p.id ∷ w) (ids-append ps qs)

flat-ids : (pss : List (List Player)) → flat_ids (map ids pss) ≡ ids (concat pss)
flat-ids [] = refl
flat-ids (ps ∷ pss) = ap (λ w. ids ps ++ w) (flat-ids pss) ∙ sym (ids-append ps (concat pss))

-- The groups of the final round, one after the other, are the ids of a list that has the
-- participants in ascending order of their scores, each of them once.
pub final_build_order-Ascending :
    (g : Game)
    → (ps : List Player) × ((flat_ids (final_build_order g).st.final_groups ≡ ids ps)
        × (Ascending ps × Permᴰ ps (participants g)))
unfolding final_build_order
final_build_order-Ascending g = (
  sort_by_score (participants g),
  (
    flat-ids (group_by_score (sort_by_score (participants g)))
        ∙ ap ids (concat-group_by_score (sort_by_score (participants g))),
    (sort_by_score-Ascending (participants g), sort_by_score-Perm (participants g)),
  ),
)
