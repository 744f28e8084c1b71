-- ===== src/Packs/Summary/Totals.antt =====
-- internal/packs/summary.go: the numbers of a summary, as numbers of the lists of all themes and of
-- all questions of the pack.
use sigame_server.Prelude.{
  Bool, List, [], any, ap, append_assoc, arith, if◌then◌else◌, length, length-append, refl, suc,
  sym, ℕ, ◌++◌, ◌+◌, ◌||◌, ◌∙◌, ◌∷◌, ◌≡◌, ◌▷◌,
}
use sigame_server.Packs.Model.{RawPack, RawQuestion, RawRound, RawTheme, is_slot}
use sigame_server.Packs.Summary.{
  Summary, count_question, count_round, loop, question_has_media, summarize,
}

abbrev pub themes_in : List RawRound → List RawTheme
themes_in [] = []
themes_in (r ∷ rs) = r.themes ++ themes_in rs

abbrev pub questions_in : List RawTheme → List RawQuestion
questions_in [] = []
questions_in (t ∷ ts) = t.questions ++ questions_in ts

abbrev pub asked_in : List RawQuestion → ℕ
asked_in [] = 0
asked_in (q ∷ qs) = let rest = asked_in qs in if is_slot q then rest else suc rest

-- A summary with these questions, and so many themes, added.
abbrev pub Adds : Summary → Summary → ℕ → List RawQuestion → Type 0
Adds s w themes qs =
    (w.theme_count ≡ s.theme_count + themes)
    × (w.question_count ≡ s.question_count + asked_in qs)
    × (w.has_media ≡ (s.has_media || any question_has_media qs))

asked_in-append : (xs ys : List RawQuestion) → asked_in (xs ++ ys) ≡ asked_in xs + asked_in ys
asked_in-append [] ys = ground arith
asked_in-append (x ∷ xs) ys = let rest = asked_in-append xs ys in ground arith

any-append :
    {A : Type 0} (p : A → Bool) (xs ys : List A) → any p (xs ++ ys) ≡ (any p xs || any p ys)
any-append p [] ys = refl
any-append p (x ∷ xs) ys = let rest = any-append p xs ys in ground arith

questions_in-append :
    (ts us : List RawTheme) → questions_in (ts ++ us) ≡ questions_in ts ++ questions_in us
questions_in-append [] us = refl
questions_in-append (t ∷ ts) us =
    ap (λ qs. t.questions ++ qs) (questions_in-append ts us)
    ∙ sym (append_assoc t.questions (questions_in ts) (questions_in us))

then-Adds :
    (s w v : Summary) (n m : ℕ) (qs rs : List RawQuestion)
    → Adds s w n qs
    → Adds w v m rs
    → Adds s v (n + m) (qs ++ rs)
then-Adds s w v n m qs rs (a, b, c) (d, e, f) =
    let counts = asked_in-append qs rs in
    let media = any-append question_has_media qs rs in (ground arith, ground arith, ground arith)

recount :
    (s w : Summary) (n m : ℕ) (qs rs : List RawQuestion)
    → n ≡ m
    → qs ≡ rs
    → Adds s w n qs
    → Adds s w m rs
recount s w n m qs rs h g (a, b, c) = (
  ground arith,
  b ∙ ap (λ xs. s.question_count + asked_in xs) g,
  c ∙ ap (λ xs. s.has_media || any question_has_media xs) g,
)

count_question-Adds : (s : Summary) (q : RawQuestion) → Adds s (count_question s q) 0 (q ∷ [])
unfolding count_question
count_question-Adds s q = (ground arith, ground arith, ground arith)

questions-Adds : (s : Summary) (qs : List RawQuestion) → Adds s (loop count_question s qs) 0 qs
questions-Adds s [] = (ground arith, ground arith, ground arith)
questions-Adds s (q ∷ qs) =
    then-Adds s (count_question s q) (loop count_question s (q ∷ qs)) 0 0 (q ∷ []) qs
      (count_question-Adds s q) (questions-Adds (count_question s q) qs)

themes-Adds :
    (s : Summary) (ts : List RawTheme)
    → Adds s (loop (λ w t. loop count_question w t.questions) s ts) 0 (questions_in ts)
themes-Adds s [] = questions-Adds s []
themes-Adds s (t ∷ ts) =
    then-Adds s (loop count_question s t.questions)
      (loop (λ w u. loop count_question w u.questions) s (t ∷ ts)) 0 0 t.questions (questions_in ts)
      (questions-Adds s t.questions) (themes-Adds (loop count_question s t.questions) ts)

count_round-Adds :
    (s : Summary) (r : RawRound)
    → Adds s (count_round s r) (length r.themes) (questions_in r.themes)
unfolding count_round
count_round-Adds s r =
    themes-Adds (record s { theme_count = s.theme_count + length r.themes }) r.themes ▷ λ (a, b, c).
    (ground arith, b, c)

rounds-Adds :
    (s : Summary) (rs : List RawRound)
    → Adds s (loop count_round s rs) (length (themes_in rs)) (questions_in (themes_in rs))
rounds-Adds s [] = questions-Adds s []
rounds-Adds s (r ∷ rs) =
    recount s (loop count_round s (r ∷ rs)) _ _ _ _ (sym (length-append r.themes (themes_in rs)))
      (sym (questions_in-append r.themes (themes_in rs)))
      (then-Adds s (count_round s r) (loop count_round s (r ∷ rs)) (length r.themes)
        (length (themes_in rs)) (questions_in r.themes) (questions_in (themes_in rs))
        (count_round-Adds s r) (rounds-Adds (count_round s r) rs))

-- The number of themes of a summary is that of all themes of the pack, the number of questions
-- that of all its questions that are not slots, and there is media where a question has some.
pub summarize-totals :
    (p : RawPack)
    → ((summarize p).theme_count ≡ length (themes_in p.rounds))
      × ((summarize p).question_count ≡ asked_in (questions_in (themes_in p.rounds)))
      × ((summarize p).has_media ≡ any question_has_media (questions_in (themes_in p.rounds)))
unfolding summarize
summarize-totals p = rounds-Adds _ p.rounds ▷ λ (a, b, c). (ground arith, ground arith, c)
