-- ===== src/Packs/Rounds/Valid.antt =====
-- internal/packs/validate.go: what a pack without problems has.
use sigame_server.Prelude.{
  Bool, List, String, [], all, ap, arith, false, if◌then◌else◌, leb, length, ltb, ltb_ℤ, nat_beq,
  negsuc, not, pos, refl, string_eq, subst, suc, sym, true, ℕ, ◌&&◌, ◌++◌, ◌==◌, ◌||◌, ◌∷◌, ◌≡◌,
}
use sigame_server.Packs.Model.{
  RawPack, RawParams, RawQuestion, RawRound, RawTheme, effective_type, is_slot,
}
use sigame_server.Packs.Texts.{Texts}
use sigame_server.Packs.Validate.{
  Code, Pointer, Problem, at_index, check_count, check_each, check_info, check_str, check_str_list,
  report, ◌also◌, ◌⟩◌,
}
use sigame_server.Packs.Question.{
  check_answer, check_content, check_first_right, check_question, check_right, is_answerless,
}
use sigame_server.Packs.Rounds.{
  check_heading, check_logo, check_round, check_theme, is_round_type, validate,
}

-- A question has content and at least one entry of a right answer, and of the type `select` two
-- options or more, unless its price is negative or it is a secret without a question.
abbrev pub playable : RawQuestion → Bool
playable q =
    ltb_ℤ q.price (pos 0)
    || q.type == "secretNoQuestion"
    || ltb 0 (length q.params.question)
      && ltb 0 (length q.right)
      && (not (q.params.answer_type == "select") || ltb 1 (length q.params.answer_options))

abbrev pub sound_theme : Bool → RawTheme → Bool
sound_theme final t =
    leb (length t.questions) 30
    && (not final || ltb 0 (length t.questions))
    && all playable t.questions

abbrev pub sound_round : RawRound → Bool
sound_round r = leb (length r.themes) 30 && all (sound_theme (r.type == "final")) r.themes

abbrev pub sound_pack : RawPack → Bool
sound_pack p = leb (length p.rounds) 50 && all sound_round p.rounds

head_empty : {A : Type 0} (xs ys : List A) → xs ++ ys ≡ [] → xs ≡ []
head_empty [] ys h = refl
head_empty (x ∷ xs) ys h = ground arith

rest_empty : {A : Type 0} (xs ys : List A) → xs ++ ys ≡ [] → ys ≡ []
rest_empty [] ys h = h
rest_empty (x ∷ xs) ys h = ground arith

report-nil : (b : Bool) (path : Pointer) (code : Code) → report b path code ≡ [] → b ≡ false
report-nil true path code h = ground arith
report-nil false path code h = refl

check_count-nil : (path : Pointer) (n top : ℕ) → check_count path n top ≡ [] → leb n top ≡ true
unfolding check_count
check_count-nil path n top h = within (report-nil (ltb top n) path Code.too_many h)
  where
    within : ltb top n ≡ false → leb n top ≡ true
    within p = ground arith

and_true : {a b : Bool} → a ≡ true → b ≡ true → a && b ≡ true
and_true p q = ground arith

not_both : (b : Bool) (n : ℕ) → b && nat_beq n 0 ≡ false → not b || ltb 0 n ≡ true
not_both true n h = ground arith
not_both false n h = refl

-- An empty type counts as `simple`.
simple_type :
    (t : String) (b : Bool)
    → (t == "") ≡ b
    → ((if b then "simple" else t) == "secretNoQuestion") ≡ (t == "secretNoQuestion")
simple_type t true e =
    subst (λ u. false ≡ (u == "secretNoQuestion")) (sym ((string_eq.same_iff t "").0 e)) refl
simple_type t false e = refl

is_answerless-eq :
    (q : RawQuestion) → is_answerless q ≡ (ltb_ℤ q.price (pos 0) || q.type == "secretNoQuestion")
unfolding is_answerless is_slot effective_type
is_answerless-eq q = ap (λ b. ltb_ℤ q.price (pos 0) || b) (simple_type q.type (q.type == "") refl)

-- The check of the number of options, where the type asks for it.
two_options :
    (b : Bool) (n : ℕ) (path : Pointer) (label number : List Problem)
    → (if b then report (ltb n 2) path Code.too_few also label else number) ≡ []
    → not b || ltb 1 n ≡ true
two_options true n path label number h =
    let few = report-nil (ltb n 2) path Code.too_few (head_empty _ label h) in ground arith
two_options false n path label number h = refl

module _ ⦃tx : Texts⦄ where
  -- What the checks of the elements of a list give for each.
  check_each-all :
      {A : Type 0} (check : Pointer → A → List Problem) (test : A → Bool)
      → ((path : Pointer) (x : A) → check path x ≡ [] → test x ≡ true)
      → (path : Pointer) (i : ℕ) (xs : List A) → check_each check path i xs ≡ []
      → all test xs ≡ true
  check_each-all check test each path i [] h = refl
  check_each-all check test each path i (x ∷ xs) h =
      let here = each (at_index path i) x (head_empty (check (at_index path i) x) _ h) in
      let rest =
        check_each-all check test each path (suc i) xs
          (rest_empty (check (at_index path i) x) _ h) in
      ground arith

  check_right-nil :
      (path : Pointer) (params : RawParams) (rights : List String)
      → check_right path params rights ≡ []
      → ltb 0 (length rights)
          && (not (params.answer_type == "select") || ltb 1 (length params.answer_options))
        ≡ true
  unfolding check_right check_first_right
  check_right-nil path params [] h = ground arith
  check_right-nil path params (r ∷ rs) h =
      and_true (ground arith)
        (two_options (params.answer_type == "select") (length params.answer_options) _ _ _ h)

  check_content-nil :
      (path : Pointer) (params : RawParams) (answerless : Bool)
      → check_content path params answerless ≡ []
      → nat_beq (length params.question) 0 && not answerless ≡ false
  unfolding check_content
  check_content-nil path params answerless h = report-nil _ (path ⟩ "question") Code.too_few (
      head_empty
        (report (nat_beq (length params.question) 0 && not answerless) (path ⟩ "question")
          Code.too_few)
        _ (rest_empty (check_count (path ⟩ "question") (length params.question) 30) _ h))

  with_answer :
      (answerless : Bool) (n : ℕ) (path : Pointer) (params : RawParams) (rights : List String)
      → nat_beq n 0 && not answerless ≡ false
      → (if answerless then [] else check_right path params rights) ≡ []
      → (answerless
          || ltb 0 n
            && ltb 0 (length rights)
            && (not (params.answer_type == "select") || ltb 1 (length params.answer_options)))
        ≡ true
  with_answer true n path params rights h g = refl
  with_answer false n path params rights h g =
      let right = check_right-nil path params rights g in ground arith

  check_question-playable :
      (path : Pointer) (q : RawQuestion) → check_question path q ≡ [] → playable q ≡ true
  unfolding check_question
  check_question-playable path q h =
      let params = path ⟩ "params" in
      let content = rest_empty (check_info (path ⟩ "info") q.info) _ (
        rest_empty (check_str (path ⟩ "type") q.type false 350) _ (
          rest_empty (report (ltb_ℤ q.price (negsuc 0)) (path ⟩ "price") Code.out_of_range) _ h)) in
      let right = rest_empty (check_str_list (path ⟩ "wrong") q.wrong 30 1500) _ (
        rest_empty (check_str_list (path ⟩ "right") q.right 30 1500) _ (
          rest_empty (check_answer params q.params) _
            (rest_empty (check_content params q.params (is_answerless q)) _ content))) in
      subst
        (λ b.
          (b
            || ltb 0 (length q.params.question)
              && ltb 0 (length q.right)
              && (not (q.params.answer_type == "select") || ltb 1 (length q.params.answer_options)))
          ≡ true)
        (is_answerless-eq q)
        (with_answer (is_answerless q) (length q.params.question) path q.params q.right
          (check_content-nil params q.params (is_answerless q)
            (head_empty (check_content params q.params (is_answerless q)) _ content))
          (head_empty (if is_answerless q then [] else check_right path q.params q.right) _ right))

  check_theme_sound :
      (final : Bool) (path : Pointer) (t : RawTheme)
      → check_theme final path t ≡ []
      → sound_theme final t ≡ true
  unfolding check_theme
  check_theme_sound final path t h =
      let few_path = path ⟩ "questions" in
      let count =
        rest_empty (check_info (path ⟩ "info") t.info) _
          (rest_empty (check_str (path ⟩ "name") t.name false 350) _ h) in
      let few = rest_empty (check_count few_path (length t.questions) 30) _ count in
      and_true
        (and_true
          (check_count-nil few_path (length t.questions) 30
            (head_empty (check_count few_path (length t.questions) 30) _ count))
          (not_both final (length t.questions) (
            report-nil _ few_path Code.too_few (
              head_empty (report (final && nat_beq (length t.questions) 0) few_path Code.too_few) _
                few))))
        (check_each-all check_question playable check_question-playable few_path 0 t.questions (
          rest_empty (report (final && nat_beq (length t.questions) 0) few_path Code.too_few) _
            few))

  check_round_sound :
      (path : Pointer) (r : RawRound) → check_round path r ≡ [] → sound_round r ≡ true
  unfolding check_round
  check_round_sound path r h =
      let count = rest_empty (check_info (path ⟩ "info") r.info) _ (
        rest_empty (report (not (is_round_type r.type)) (path ⟩ "type") Code.invalid_value) _
          (rest_empty (check_str (path ⟩ "name") r.name false 350) _ h)) in
      and_true
        (check_count-nil (path ⟩ "themes") (length r.themes) 30
          (head_empty (check_count (path ⟩ "themes") (length r.themes) 30) _ count))
        (check_each-all (check_theme (r.type == "final")) (sound_theme (r.type == "final"))
          (check_theme_sound (r.type == "final")) (path ⟩ "themes") 0 r.themes
          (rest_empty (check_count (path ⟩ "themes") (length r.themes) 30) _ count))

  -- A pack without problems has at most 50 rounds of at most 30 themes of at most 30 questions,
  -- every theme of its final rounds has a question, and every question has content and at least one
  -- right answer entry, whose text may be empty, and with the answer type `select` at least two
  -- options. Exempt are questions of a negative price and of the type `secretNoQuestion`.
  pub validate_sound : (p : RawPack) → validate p ≡ [] → sound_pack p ≡ true
  unfolding validate
  validate_sound p h =
      let info = rest_empty (check_str_list ("tags" ∷ []) p.tags 10 350) _ (
        rest_empty (check_logo p) _ (
          rest_empty
            (report (ltb_ℤ p.difficulty (pos 0) || ltb_ℤ (pos 10) p.difficulty) ("difficulty" ∷ [])
              Code.out_of_range)
            _ (rest_empty (check_heading p) _ h))) in
      let count = rest_empty (check_info ("info" ∷ []) p.info) _ info in
      and_true
        (check_count-nil ("rounds" ∷ []) (length p.rounds) 50
          (head_empty (check_count ("rounds" ∷ []) (length p.rounds) 50) _ count))
        (check_each-all check_round sound_round check_round_sound ("rounds" ∷ []) 0 p.rounds
          (rest_empty (check_count ("rounds" ∷ []) (length p.rounds) 50) _ count))
