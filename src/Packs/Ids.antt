-- ===== src/Packs/Ids.antt =====
-- internal/packs/ids.go: the identifiers of a pack and of its parts. The n-th call of the library
-- that makes identifiers answers `fresh n`; the number of calls is passed on.
pub mod Filled
use sigame_server.Prelude.{List, String, [], if◌then◌else◌, map, string_eq, ℕ, ◌+◌, ◌==◌, ◌∷◌}
use sigame_server.Packs.Model.{RawPack, RawQuestion, RawRound, RawTheme}

-- Go's loop over a list whose body changes the element and the state.
unfoldable pub each {ℓ} : {A : Type ℓ} → (A → ℕ → A × ℕ) → List A → ℕ → List A × ℕ
each f [] n = ([], n)
each f (x ∷ xs) n = let here = f x n in let rest = each f xs (here.1) in (here.0 ∷ rest.0, rest.1)

-- The id where there is one, else a fresh one.
unfoldable pub filled : (ℕ → String) → String → ℕ → String × ℕ
filled fresh id n = if id == "" then (fresh n, n + 1) else (id, n)

unfoldable pub ensure_question : (ℕ → String) → RawQuestion → ℕ → RawQuestion × ℕ
unfolding filled
ensure_question fresh q n = let id = filled fresh q.id n in (record q { id = id.0 }, id.1)

unfoldable pub ensure_theme : (ℕ → String) → RawTheme → ℕ → RawTheme × ℕ
unfolding filled each ensure_question
ensure_theme fresh t n =
    let id = filled fresh t.id n in
    let questions = each (ensure_question fresh) t.questions (id.1) in
    (record t { id = id.0; questions = questions.0 }, questions.1)

unfoldable pub ensure_round : (ℕ → String) → RawRound → ℕ → RawRound × ℕ
unfolding filled each ensure_theme
ensure_round fresh r n =
    let id = filled fresh r.id n in
    let themes = each (ensure_theme fresh) r.themes (id.1) in
    (record r { id = id.0; themes = themes.0 }, themes.1)

unfoldable pub ensure_ids : (ℕ → String) → RawPack → ℕ → RawPack × ℕ
unfolding filled each ensure_round
ensure_ids fresh p n =
    let id = filled fresh p.id n in
    let rounds = each (ensure_round fresh) p.rounds (id.1) in
    (record p { id = id.0; rounds = rounds.0 }, rounds.1)

unfoldable pub reset_question : RawQuestion → RawQuestion
reset_question q = record q { id = "" }

unfoldable pub reset_theme : RawTheme → RawTheme
unfolding reset_question
reset_theme t = record t { id = ""; questions = map reset_question t.questions }

unfoldable pub reset_round : RawRound → RawRound
unfolding reset_theme
reset_round r = record r { id = ""; themes = map reset_theme r.themes }

unfoldable pub reset_ids : RawPack → RawPack
unfolding reset_round
reset_ids p = record p { id = ""; rounds = map reset_round p.rounds }
