-- ===== src/Packs/Normalize/Canonical.antt =====
-- internal/packs/normalize.go: what a pack in canonical form has.
use sigame_server.Prelude.{
  Bool, List, String, [], all, arith, if◌then◌else◌, inl, inr, keep, length, ltb, map, not, refl,
  string_eq, true, ◌&&◌, ◌==◌, ◌∷◌, ◌≡◌, ◌⊎◌,
}
use sigame_server.Pack.{Info}
use sigame_server.Packs.Model.{RawPack, RawQuestion, RawRound, RawTheme}
use sigame_server.Packs.Texts.{Texts}
use sigame_server.Packs.Normalize.{
  clean_list, normalize, normalize_info, normalize_question, normalize_right, normalize_round,
  normalize_theme, normalize_type,
}

abbrev pub filled_text : String → Bool
filled_text s = not (s == "")

abbrev pub canonical_info : Info → Bool
canonical_info info = all filled_text info.authors && all filled_text info.sources

abbrev pub canonical_question : RawQuestion → Bool
canonical_question q = filled_text q.type && canonical_info q.info && ltb 0 (length q.right)

abbrev pub canonical_theme : RawTheme → Bool
canonical_theme t = canonical_info t.info && all canonical_question t.questions

abbrev pub canonical_round : RawRound → Bool
canonical_round r = filled_text r.type && canonical_info r.info && all canonical_theme r.themes

abbrev pub canonical_pack : RawPack → Bool
canonical_pack p = all filled_text p.tags && canonical_info p.info && all canonical_round p.rounds

both : {a b : Bool} → a ≡ true → b ≡ true → a && b ≡ true
both p q = ground arith

all-map :
    {A B : Type 0} (test : B → Bool) (f : A → B)
    → ((x : A) → test (f x) ≡ true)
    → (xs : List A) → all test (map f xs) ≡ true
all-map test f h [] = refl
all-map test f h (x ∷ xs) = let here = h x in let rest = all-map test f h xs in ground arith

-- Two lists of one length whose elements are related one by one.
abbrev pub Pairwise : {A : Type 0} → (A → A → Type 0) → List A → List A → Type 0
Pairwise R [] [] = Unit
Pairwise R [] (y ∷ ys) = ⊥
Pairwise R (x ∷ xs) [] = ⊥
Pairwise R (x ∷ xs) (y ∷ ys) = R x y × Pairwise R xs ys

Pairwise-map :
    {A : Type 0} (R : A → A → Type 0) (f : A → A)
    → ((x : A) → R x (f x))
    → (xs : List A) → Pairwise R xs (map f xs)
Pairwise-map R f h [] = tt
Pairwise-map R f h (x ∷ xs) = (h x, Pairwise-map R f h xs)

-- A text with what stands for an empty one.
filled_or :
    (s other : String)
    → filled_text other ≡ true
    → filled_text (if s == "" then other else s) ≡ true
filled_or s other h = ground arith

module _ ⦃tx : Texts⦄ where
  clean_list-filled : (ss : List String) → all filled_text (clean_list ss) ≡ true
  unfolding clean_list
  clean_list-filled [] = refl
  clean_list-filled (s ∷ ss) = let rest = clean_list-filled ss in ground arith

  normalize_info-canonical : (info : Info) → canonical_info (normalize_info info) ≡ true
  unfolding normalize_info
  normalize_info-canonical info =
      both (clean_list-filled info.authors) (clean_list-filled info.sources)

  normalize_right-filled : (ss : List String) → ltb 0 (length (normalize_right ss)) ≡ true
  unfolding normalize_right
  normalize_right-filled [] = refl
  normalize_right-filled (s ∷ ss) = ground arith

  normalize_type-filled : (s : String) → filled_text (normalize_type s) ≡ true
  unfolding normalize_type
  normalize_type-filled s = filled_or (tx.trim_space s) "simple" refl

  normalize_question-canonical :
      (q : RawQuestion) → canonical_question (normalize_question q) ≡ true
  unfolding normalize_question
  normalize_question-canonical q =
      both (both (normalize_type-filled q.type) (normalize_info-canonical q.info))
        (normalize_right-filled q.right)

  normalize_theme-canonical : (t : RawTheme) → canonical_theme (normalize_theme t) ≡ true
  unfolding normalize_theme
  normalize_theme-canonical t =
      both (normalize_info-canonical t.info)
        (all-map canonical_question normalize_question normalize_question-canonical t.questions)

  normalize_round-canonical : (r : RawRound) → canonical_round (normalize_round r) ≡ true
  unfolding normalize_round
  normalize_round-canonical r =
      both (both (filled_or r.type "standard" refl) (normalize_info-canonical r.info))
        (all-map canonical_theme normalize_theme normalize_theme-canonical r.themes)

  clean_list-eq : (ss : List String) → clean_list ss ≡ keep filled_text (map tx.trim_space ss)
  unfolding clean_list
  clean_list-eq [] = refl
  clean_list-eq (s ∷ ss) = let rest = clean_list-eq ss in ground arith

  abbrev pub SameInfo : Info → Info → Type 0
  SameInfo i j =
      (j.authors ≡ keep filled_text (map tx.trim_space i.authors))
      × (j.sources ≡ keep filled_text (map tx.trim_space i.sources))

  -- A question as it came in, and a question that stands for it: it has the identifier, the price and
  -- the wrong answers of the first, and its right answers, all trimmed and in order, with one empty
  -- right answer where the first has none.
  abbrev pub SameQuestion : RawQuestion → RawQuestion → Type 0
  SameQuestion q r =
      ((r.id ≡ q.id) × (r.price ≡ q.price) × SameInfo q.info r.info)
      × ((r.right ≡ map tx.trim_space q.right) ⊎ ((q.right ≡ []) × (r.right ≡ "" ∷ [])))
      × (r.wrong ≡ map tx.trim_space q.wrong)

  abbrev pub SameTheme : RawTheme → RawTheme → Type 0
  SameTheme t u =
      ((u.id ≡ t.id) × SameInfo t.info u.info) × Pairwise SameQuestion t.questions u.questions

  abbrev pub SameRound : RawRound → RawRound → Type 0
  SameRound r s = ((s.id ≡ r.id) × SameInfo r.info s.info) × Pairwise SameTheme r.themes s.themes

  abbrev pub SamePack : RawPack → RawPack → Type 0
  SamePack p s =
      (((s.id ≡ p.id) × SameInfo p.info s.info)
        × (s.tags ≡ keep filled_text (map tx.trim_space p.tags)))
      × Pairwise SameRound p.rounds s.rounds

  normalize_info-SameInfo : (i : Info) → SameInfo i (normalize_info i)
  unfolding normalize_info
  normalize_info-SameInfo i = (clean_list-eq i.authors, clean_list-eq i.sources)

  normalize_right-kept :
      (ss : List String)
      → (normalize_right ss ≡ map tx.trim_space ss) ⊎ ((ss ≡ []) × (normalize_right ss ≡ "" ∷ []))
  unfolding normalize_right
  normalize_right-kept [] = inr (refl, refl)
  normalize_right-kept (s ∷ ss) = inl refl

  normalize_question-SameQuestion : (q : RawQuestion) → SameQuestion q (normalize_question q)
  unfolding normalize_question
  normalize_question-SameQuestion q =
      ((refl, refl, normalize_info-SameInfo q.info), normalize_right-kept q.right, refl)

  normalize_theme-SameTheme : (t : RawTheme) → SameTheme t (normalize_theme t)
  unfolding normalize_theme
  normalize_theme-SameTheme t = (
    (refl, normalize_info-SameInfo t.info),
    Pairwise-map SameQuestion normalize_question normalize_question-SameQuestion t.questions,
  )

  normalize_round-SameRound : (r : RawRound) → SameRound r (normalize_round r)
  unfolding normalize_round
  normalize_round-SameRound r = (
    (refl, normalize_info-SameInfo r.info),
    Pairwise-map SameTheme normalize_theme normalize_theme-SameTheme r.themes,
  )

  normalize_pack-canonical : (p : RawPack) → canonical_pack (normalize p) ≡ true
  unfolding normalize
  normalize_pack-canonical p =
      both (both (clean_list-filled p.tags) (normalize_info-canonical p.info))
        (all-map canonical_round normalize_round normalize_round-canonical p.rounds)

  -- After Normalize, every round and question has a type and every question an entry for a right
  -- answer, which may be empty. The tags, authors and sources are those before, trimmed, less those
  -- that are blank. The rounds, themes and questions are those before, in order, with their
  -- identifiers and prices; a question has its right and wrong answers, trimmed, and where it had no
  -- right answer a single empty one.
  pub normalize-SamePack :
      (p : RawPack) → (canonical_pack (normalize p) ≡ true) × SamePack p (normalize p)
  unfolding normalize
  normalize-SamePack p = (
    normalize_pack-canonical p,
    (
      ((refl, normalize_info-SameInfo p.info), clean_list-eq p.tags),
      Pairwise-map SameRound normalize_round normalize_round-SameRound p.rounds,
    ),
  )
