-- ===== src/Engine/Content/Groups.antt =====
-- internal/engine/question.go, `buildGroups`: how the content items are grouped.
use sigame_server.Prelude.{
  Bool, List, [], ap, append_assoc, arith, false, if◌then◌else◌, map, refl, sym, true, ◌++◌, ◌∙◌,
  ◌∷◌, ◌≡◌,
}
use sigame_server.Pack.{ContentItem}
use sigame_server.Engine.State.{ContentGroup}
use sigame_server.Engine.Game.{Game}
use sigame_server.Engine.Content.{
  add_last, build_groups, empty_group, group_loop, plan_item, plan_items,
}

abbrev pub flat : List (List ContentItem) → List ContentItem
flat [] = []
flat (its ∷ grps) = its ++ flat grps

flat-append : (xs ys : List (List ContentItem)) → flat (xs ++ ys) ≡ flat xs ++ flat ys
flat-append [] ys = refl
flat-append (x ∷ xs) ys =
    ap (λ w. x ++ w) (flat-append xs ys) ∙ sym (append_assoc x (flat xs) (flat ys))

-- An item put in front of a first group that is there, or alone.
abbrev pub front : ContentItem → List (List ContentItem) → List (List ContentItem)
front it [] = (it ∷ []) ∷ []
front it (grp ∷ grps) = (it ∷ grp) ∷ grps

-- The groups, from the last item: an item that does not wait stands in the group of the next one.
unfoldable pub chain : List ContentItem → List (List ContentItem)
chain [] = []
chain (it ∷ its) = let rest = chain its in if it.no_wait then front it rest else (it ∷ []) ∷ rest

-- An open group and what follows it.
abbrev extend : List ContentItem → List (List ContentItem) → List (List ContentItem)
extend grp [] = grp ∷ []
extend grp (next ∷ grps) = (grp ++ next) ∷ grps

add_last-append :
    (it : ContentItem) (pre : List (List ContentItem)) (grp : List ContentItem)
    → add_last it (pre ++ grp ∷ []) ≡ pre ++ (grp ++ it ∷ []) ∷ []
add_last-append it [] grp = refl
add_last-append it (p ∷ []) grp = refl
add_last-append it (p ∷ q ∷ pre) grp = ap (λ w. p ∷ w) (add_last-append it (q ∷ pre) grp)

-- What the loop makes of the items left, by the group being open or not.
abbrev result :
    Bool
    → List (List ContentItem)
    → List ContentItem
    → List (List ContentItem)
    → List (List ContentItem)
result true pre grp rest = pre ++ extend grp rest
result false pre grp rest = pre ++ grp ∷ rest

result-chain :
    (b : Bool) (pre : List (List ContentItem)) (grp : List ContentItem) (it : ContentItem)
    (its : List ContentItem)
    → it.no_wait ≡ b
    → result b pre (grp ++ it ∷ []) (chain its)
      ≡ pre ++ extend grp (if b then front it (chain its) else (it ∷ []) ∷ chain its)
result-chain true pre grp it its h = ap (λ w. pre ++ w) (same (chain its))
  where
    same :
        (rest : List (List ContentItem)) → extend (grp ++ it ∷ []) rest ≡ extend grp (front it rest)
    same [] = refl
    same (next ∷ rest) = ap (λ w. w ∷ rest) (append_assoc grp (it ∷ []) next)
result-chain false pre grp it its h = refl

extend_none :
    (b : Bool) (it : ContentItem) (rest : List (List ContentItem))
    → extend [] (if b then front it rest else (it ∷ []) ∷ rest)
      ≡ (if b then front it rest else (it ∷ []) ∷ rest)
extend_none true it [] = refl
extend_none true it (grp ∷ rest) = refl
extend_none false it rest = refl

group_loop-result :
    (b : Bool) (pre : List (List ContentItem)) (grp : List ContentItem) (its : List ContentItem)
    → group_loop (pre ++ grp ∷ []) b its ≡ result b pre grp (chain its)
unfolding group_loop chain
group_loop-result true pre grp [] = refl
group_loop-result false pre grp [] = refl
group_loop-result true pre grp (it ∷ its) =
    ap (λ w. group_loop w it.no_wait its) (add_last-append it pre grp)
    ∙ (group_loop-result it.no_wait pre (grp ++ it ∷ []) its
        ∙ result-chain it.no_wait pre grp it its refl)
group_loop-result false pre grp (it ∷ its) =
    group_loop-result it.no_wait (pre ++ grp ∷ []) (it ∷ []) its
    ∙ (result-chain it.no_wait (pre ++ grp ∷ []) [] it its refl
        ∙ (append_assoc pre (grp ∷ [])
              (extend [] (if it.no_wait then front it (chain its) else (it ∷ []) ∷ chain its))
            ∙ ap (λ w. pre ++ grp ∷ w) (extend_none it.no_wait it (chain its))))

group_loop-chain : (its : List ContentItem) → group_loop [] false its ≡ chain its
unfolding group_loop chain
group_loop-chain [] = refl
group_loop-chain (it ∷ its) =
    group_loop-result it.no_wait [] (it ∷ []) its
    ∙ (result-chain it.no_wait [] [] it its refl ∙ extend_none it.no_wait it (chain its))

flat-chain : (its : List ContentItem) → flat (chain its) ≡ its
unfolding chain
flat-chain [] = refl
flat-chain (it ∷ its) = step it.no_wait (chain its) (flat-chain its)
  where
    step :
        (b : Bool) (rest : List (List ContentItem))
        → flat rest ≡ its
        → flat (if b then front it rest else (it ∷ []) ∷ rest) ≡ it ∷ its
    step true [] h = ap (λ w. it ∷ w) h
    step true (grp ∷ rest) h = ap (λ w. it ∷ w) h
    step false rest h = ap (λ w. it ∷ w) h

plan_items-items :
    (g : Game) (grp : ContentGroup) (its : List ContentItem)
    → (plan_items g grp its).items ≡ grp.items
unfolding plan_items
plan_items-items g grp [] = refl
plan_items-items g grp (it ∷ its) = plan_items-items g (plan_item g grp it) its ∙ ground arith

groups_of :
    (g : Game) (grps : List (List ContentItem))
    → map (λ grp. grp.items) (map (λ its. plan_items g (empty_group its) its) grps) ≡ grps
groups_of g [] = refl
groups_of g (its ∷ grps) =
    ap (λ w. w ∷ map (λ grp. grp.items) (map (λ its. plan_items g (empty_group its) its) grps))
      (plan_items-items g (empty_group its) its)
    ∙ ap (λ w. its ∷ w) (groups_of g grps)

-- The groups that are played hold the items in their order, each once, and an item stands in the
-- group of the item before it exactly where that one does not wait.
pub build_groups-chain :
    (g : Game) (items : List ContentItem)
    → (map (λ grp. grp.items) (build_groups g items) ≡ chain items) × (flat (chain items) ≡ items)
unfolding build_groups
build_groups-chain g items =
    (groups_of g (group_loop [] false items) ∙ group_loop-chain items, flat-chain items)
