-- ===== src/Packs/Ids/Filled.antt =====
-- internal/packs/ids.go: a pack whose parts are all named, and what naming them keeps.
use sigame_server.Prelude.{
  Bool, List, String, [], all, ap, arith, map, not, refl, string_eq, true, ℕ, ◌&&◌, ◌==◌, ◌∙◌, ◌∷◌,
  ◌≡◌,
}
use sigame_server.Packs.Model.{RawPack, RawQuestion, RawRound, RawTheme}
use sigame_server.Packs.Ids.{
  each, ensure_ids, ensure_question, ensure_round, ensure_theme, filled, reset_ids, reset_question,
  reset_round, reset_theme,
}

abbrev pub named : String → Bool
named id = not (id == "")

abbrev pub named_theme : RawTheme → Bool
named_theme t = named t.id && all (λ q. named q.id) t.questions

abbrev pub named_round : RawRound → Bool
named_round r = named r.id && all named_theme r.themes

abbrev pub named_pack : RawPack → Bool
named_pack p = named p.id && all named_round p.rounds

both : {a b : Bool} → a ≡ true → b ≡ true → a && b ≡ true
both p q = ground arith

all_here :
    {A : Type 0} (test : A → Bool) (x : A) (xs : List A) → all test (x ∷ xs) ≡ true → test x ≡ true
all_here test x xs p = ground arith

all_rest :
    {A : Type 0} (test : A → Bool) (x : A) (xs : List A)
    → all test (x ∷ xs) ≡ true
    → all test xs ≡ true
all_rest test x xs p = ground arith

both_left : (a b : Bool) → a && b ≡ true → a ≡ true
both_left a b p = ground arith

both_right : (a b : Bool) → a && b ≡ true → b ≡ true
both_right a b p = ground arith

-- A name and a list, made one after the other, as they were.
thread :
    {A B : Type 0} (make : String → List A → B) (s : ℕ → List A × ℕ) (r : String × ℕ) (id : String)
    (xs : List A) (n : ℕ)
    → r ≡ (id, n)
    → s n ≡ (xs, n)
    → ◌≡◌ {A = B × ℕ} (make (r.0) ((s (r.1)).0), (s (r.1)).1) (make id xs, n)
thread {B = B} make s r id xs n h g =
    ap {B = B × ℕ} (λ w. (make (w.0) ((s (w.1)).0), (s (w.1)).1)) h
    ∙ ap {B = B × ℕ} (λ w. (make id (w.0), w.1)) g

-- A loop that makes every element pass a test.
each-all :
    {A : Type 0} (f : A → ℕ → A × ℕ) (test : A → Bool)
    → ((x : A) (n : ℕ) → test ((f x n).0) ≡ true)
    → (xs : List A) (n : ℕ) → all test ((each f xs n).0) ≡ true
unfolding each
each-all f test h [] n = refl
each-all f test h (x ∷ xs) n =
    let here = h x n in let rest = each-all f test h xs ((f x n).1) in ground arith

-- A loop that changes no element that passes a test.
each-kept :
    {A : Type 0} (f : A → ℕ → A × ℕ) (test : A → Bool)
    → ((x : A) (n : ℕ) → test x ≡ true → f x n ≡ (x, n))
    → (xs : List A) (n : ℕ) → all test xs ≡ true
    → each f xs n ≡ (xs, n)
unfolding each
each-kept f test h [] n p = refl
each-kept f test h (x ∷ xs) n p =
    let here = h x n (all_here test x xs p) in
    let rest = each-kept f test h xs n (all_rest test x xs p) in grind arith

-- A loop that changes nothing that a map still shows.
each-map :
    {A B : Type 0} (f : A → ℕ → A × ℕ) (g : A → B)
    → ((x : A) (n : ℕ) → g ((f x n).0) ≡ g x)
    → (xs : List A) (n : ℕ) → map g ((each f xs n).0) ≡ map g xs
unfolding each
each-map f g h [] n = refl
each-map f g h (x ∷ xs) n = let here = h x n in let rest = each-map f g h xs ((f x n).1) in cc

module _ (fresh : ℕ → String) where
  filled-named :
      ((n : ℕ) → named (fresh n) ≡ true)
      → (id : String) (n : ℕ) → named ((filled fresh id n).0) ≡ true
  unfolding filled
  filled-named h id n = let some_id = h n in ground arith

  filled-kept : (id : String) (n : ℕ) → named id ≡ true → filled fresh id n ≡ (id, n)
  unfolding filled
  filled-kept id n p = ground arith

  ensure_question-named :
      ((n : ℕ) → named (fresh n) ≡ true)
      → (q : RawQuestion) (n : ℕ) → named (((ensure_question fresh q n).0).id) ≡ true
  unfolding ensure_question
  ensure_question-named h q n = filled-named h q.id n

  ensure_theme-named :
      ((n : ℕ) → named (fresh n) ≡ true)
      → (t : RawTheme) (n : ℕ) → named_theme ((ensure_theme fresh t n).0) ≡ true
  unfolding ensure_theme
  ensure_theme-named h t n = both (filled-named h t.id n) (
      each-all (ensure_question fresh) (λ q. named q.id) (ensure_question-named h) t.questions
        ((filled fresh t.id n).1))

  ensure_round-named :
      ((n : ℕ) → named (fresh n) ≡ true)
      → (r : RawRound) (n : ℕ) → named_round ((ensure_round fresh r n).0) ≡ true
  unfolding ensure_round
  ensure_round-named h r n = both (filled-named h r.id n) (
      each-all (ensure_theme fresh) named_theme (ensure_theme-named h) r.themes
        ((filled fresh r.id n).1))

  -- Where no fresh identifier is empty, a pack and all its rounds, themes and questions have
  -- identifiers after EnsureIDs.
  pub ensure_ids-named :
      ((n : ℕ) → named (fresh n) ≡ true)
      → (p : RawPack) (n : ℕ) → named_pack ((ensure_ids fresh p n).0) ≡ true
  unfolding ensure_ids
  ensure_ids-named h p n = both (filled-named h p.id n) (
      each-all (ensure_round fresh) named_round (ensure_round-named h) p.rounds
        ((filled fresh p.id n).1))

  ensure_question-kept :
      (q : RawQuestion) (n : ℕ) → named q.id ≡ true → ensure_question fresh q n ≡ (q, n)
  unfolding ensure_question
  ensure_question-kept q n p = ap (λ r. (record q { id = r.0 }, r.1)) (filled-kept q.id n p)

  ensure_theme-kept :
      (t : RawTheme) (n : ℕ) → named_theme t ≡ true → ensure_theme fresh t n ≡ (t, n)
  unfolding ensure_theme
  ensure_theme-kept t n p =
      thread (λ id questions. record t { id = id; questions = questions })
        (each (ensure_question fresh) t.questions) (filled fresh t.id n) t.id t.questions n
        (filled-kept t.id n (both_left _ _ p))
        (each-kept (ensure_question fresh) (λ q. named q.id) ensure_question-kept t.questions n
          (both_right (named t.id) _ p))

  ensure_round-kept :
      (r : RawRound) (n : ℕ) → named_round r ≡ true → ensure_round fresh r n ≡ (r, n)
  unfolding ensure_round
  ensure_round-kept r n p =
      thread (λ id themes. record r { id = id; themes = themes })
        (each (ensure_theme fresh) r.themes) (filled fresh r.id n) r.id r.themes n
        (filled-kept r.id n (both_left _ _ p))
        (each-kept (ensure_theme fresh) named_theme ensure_theme-kept r.themes n
          (both_right (named r.id) _ p))

  -- A pack that has all its identifiers is left as it is, and no identifier is made.
  pub ensure_ids-kept : (p : RawPack) (n : ℕ) → named_pack p ≡ true → ensure_ids fresh p n ≡ (p, n)
  unfolding ensure_ids
  ensure_ids-kept p n h =
      thread (λ id rounds. record p { id = id; rounds = rounds })
        (each (ensure_round fresh) p.rounds) (filled fresh p.id n) p.id p.rounds n
        (filled-kept p.id n (both_left _ _ h))
        (each-kept (ensure_round fresh) named_round ensure_round-kept p.rounds n
          (both_right (named p.id) _ h))

  reset_question-ensure_question :
      (q : RawQuestion) (n : ℕ) → reset_question ((ensure_question fresh q n).0) ≡ reset_question q
  unfolding ensure_question reset_question
  reset_question-ensure_question q n = refl

  reset_theme-ensure_theme :
      (t : RawTheme) (n : ℕ) → reset_theme ((ensure_theme fresh t n).0) ≡ reset_theme t
  unfolding ensure_theme reset_theme
  reset_theme-ensure_theme t n =
      ap (λ qs. record t { id = ""; questions = qs })
        (each-map (ensure_question fresh) reset_question reset_question-ensure_question t.questions
          ((filled fresh t.id n).1))

  reset_round-ensure_round :
      (r : RawRound) (n : ℕ) → reset_round ((ensure_round fresh r n).0) ≡ reset_round r
  unfolding ensure_round reset_round
  reset_round-ensure_round r n =
      ap (λ ts. record r { id = ""; themes = ts })
        (each-map (ensure_theme fresh) reset_theme reset_theme-ensure_theme r.themes
          ((filled fresh r.id n).1))

  -- EnsureIDs changes nothing but identifiers: with every identifier cleared, the pack after it is
  -- the pack before it.
  pub reset_ids-ensure_ids :
      (p : RawPack) (n : ℕ) → reset_ids ((ensure_ids fresh p n).0) ≡ reset_ids p
  unfolding ensure_ids reset_ids
  reset_ids-ensure_ids p n =
      ap (λ rs. record p { id = ""; rounds = rs })
        (each-map (ensure_round fresh) reset_round reset_round-ensure_round p.rounds
          ((filled fresh p.id n).1))
