-- ===== src/Packs/Summary.antt =====
-- internal/packs/summary.go: the summary of a pack.
pub mod Totals
use sigame_server.Prelude.{
  Bool, List, String, [], any, false, if◌then◌else◌, length, ℕ, ℤ, ◌+◌, ◌||◌, ◌∷◌,
}
use sigame_server.Packs.Model.{RawItem, RawPack, RawQuestion, RawRound, is_media, is_slot}

pub record Summary : Type 0 where
  pub id : String
  pub version : ℤ
  pub name : String
  pub language : String
  pub difficulty : ℤ
  pub restriction : String
  pub tags : List String
  pub authors : List String
  pub round_count : ℕ
  pub theme_count : ℕ
  pub question_count : ℕ
  pub has_media : Bool
  pub logo_media_id : String
  pub created_at : ℤ
  pub updated_at : ℤ

unfoldable pub items_have_media : List RawItem → Bool
unfolding is_media
items_have_media items = any is_media items

unfoldable pub question_has_media : RawQuestion → Bool
unfolding items_have_media
question_has_media q =
    items_have_media q.params.question
    || items_have_media q.params.answer
    || any (λ o. items_have_media o.content) q.params.answer_options

unfoldable pub count_question : Summary → RawQuestion → Summary
unfolding is_slot question_has_media
count_question s q = record s {
  question_count = if is_slot q then s.question_count else s.question_count + 1;
  has_media = s.has_media || question_has_media q;
}

-- A loop over a list.
abbrev pub loop : {A : Type 0} → (Summary → A → Summary) → Summary → List A → Summary
loop f s [] = s
loop f s (x ∷ xs) = loop f (f s x) xs

unfoldable pub count_round : Summary → RawRound → Summary
unfolding count_question
count_round s r =
    loop (λ w t. loop count_question w t.questions)
      (record s { theme_count = s.theme_count + length r.themes }) r.themes

unfoldable pub summarize : RawPack → Summary
unfolding count_round
summarize p =
    loop count_round
      (record {
        id = p.id;
        version = p.version;
        name = p.name;
        language = p.language;
        difficulty = p.difficulty;
        restriction = p.restriction;
        tags = p.tags;
        authors = p.info.authors;
        round_count = length p.rounds;
        theme_count = 0;
        question_count = 0;
        has_media = false;
        logo_media_id = p.logo_media_id;
        created_at = p.created_at;
        updated_at = p.updated_at;
      })
      p.rounds
